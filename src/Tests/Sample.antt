-- ===== src/Tests/Sample.antt =====
-- A codec that meets the laws of `Json`: an event is one byte of the alphabet.
use mathlib.Core.Path.{subst}
use foliot.Common.{
  ℕ, ◌≡◌, refl, String, ℤ, pos, Bool, true, false, Option, none, some, List, [], ◌∷◌, ◌++◌, All,
}
use foliot.Log.Event.{Event}
use foliot.Log.Json.{Json, Decoded, malformed, decoded}

-- Data of which the log reads only the keys and the seq.
pub record Fields : Type 0 where
  pub keys : List String
  pub seq : Option ℤ

pub data Item : Type 0 where
  line_end : Item
  letter : ℕ → Item
  event : Event Fields → Item

abbrev pub is_end : Item → Bool
is_end line_end = true
is_end _ = false

abbrev pub read_items : List Item → Decoded Fields
read_items (event e ∷ line_end ∷ []) = decoded e
read_items _ = malformed "no event"

pub encode_one_line :
    (e : Event Fields) (b : List Item)
    → ◌≡◌ {A = Option (List Item)} (some (event e ∷ [])) (some b)
    → All (λ x. is_end x ≡ false) b
encode_one_line e [] h = cc
encode_one_line e (x ∷ []) h = (cc, tt)
encode_one_line e (x ∷ y ∷ b) h = cc

pub decode-encode :
    (e : Event Fields) (b : List Item)
    → Unit {0}
    → ◌≡◌ {A = Option (List Item)} (some (event e ∷ [])) (some b)
    → read_items (b ++ line_end ∷ []) ≡ decoded e
decode-encode e b m h =
    let same : event e ∷ [] ≡ b = cc in
    subst (λ x. read_items (x ++ line_end ∷ []) ≡ decoded e) same refl

abbrev pub sample : Json
sample = record {
  Byte = Item;
  is_newline = is_end;
  newline = line_end;
  Raw = Fields;
  encode = λ e. some (event e ∷ []);
  decode = read_items;
  keys = λ f. some f.keys;
  seq_of = λ f. f.seq;
  opened = λ pid at. record { keys = "pid" ∷ "started_at" ∷ []; seq = none };
  closed = λ pid seq. record { keys = "opened_seq" ∷ "pid" ∷ []; seq = none };
  repaired = λ n name. record { keys = "dropped_bytes" ∷ "moved_to" ∷ []; seq = none };
  quarantined = λ seq r. record { keys = "reason" ∷ "seq" ∷ []; seq = some (pos seq) };
  taken = λ p s. record { keys = "stale_pid" ∷ "stale_started_at" ∷ []; seq = none };
  lock_pid = λ b. none;
  lock_started = λ b. none;
  lock_content = λ pid at. letter pid ∷ [];
  trim = λ b. b;
  Marshalled = λ r. Unit {0};
  newline_lem = refl;
  encode_one_line = encode_one_line;
  decode-encode = decode-encode;
  opened-Marshalled = λ pid at. tt;
  closed-Marshalled = λ pid seq. tt;
  repaired-Marshalled = λ n name. tt;
  quarantined-Marshalled = λ seq r. tt;
  taken-Marshalled = λ p s. tt;
  keys-quarantined = λ seq r. refl;
  seq_of-quarantined = λ seq r. refl;
}
