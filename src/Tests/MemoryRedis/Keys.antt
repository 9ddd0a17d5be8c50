-- ===== src/Tests/MemoryRedis/Keys.antt =====
-- An encoding of keys as texts, two characters for each token, in place of bson's.
use buttercup.Prelude.{
  ℕ, zero, suc, ◌≡◌, refl, ap, String, some, List, [], ◌∷◌, str_eq, if◌then◌else◌,
}
use Prim.Native.Char.{Char}
use buttercup.Redis.{Field, Json}

-- The fields that were read, and the text and the number that are under way, from the right.
record Read : Type 0 where
  fields : List Field
  chars : String
  units : ℕ
  items : List String

-- The token that a mark and a character make, in front of what was read.
abbrev token : String → Char → Read → Read
token mark c rest =
    if str_eq mark "c"
    then record rest { chars = String.◌∷◌ c rest.chars }
    else if str_eq mark "u"
    then record rest { units = suc rest.units }
    else if str_eq mark "t"
    then record { fields = Field.text rest.chars ∷ rest.fields; chars = ""; units = 0; items = [] }
    else if str_eq mark "s"
    then record rest { chars = ""; items = rest.chars ∷ rest.items }
    else if str_eq mark "l"
    then record { fields = Field.texts rest.items ∷ rest.fields; chars = ""; units = 0; items = [] }
    else record {
      fields = Field.number rest.units ∷ rest.fields;
      chars = "";
      units = 0;
      items = [];
    }

abbrev read_from : String → Read
read_from (String.◌∷◌ m (String.◌∷◌ c s)) = token (String.◌∷◌ m "") c (read_from s)
read_from _ = record { fields = []; chars = ""; units = 0; items = [] }

abbrev write_chars : String → String → String
write_chars String.[] rest = rest
write_chars (String.◌∷◌ c s) rest = String.◌∷◌ "c" (String.◌∷◌ c (write_chars s rest))

abbrev write_units : ℕ → String → String
write_units zero rest = rest
write_units (suc n) rest = String.◌∷◌ "u" (String.◌∷◌ "u" (write_units n rest))

abbrev write_items : List String → String → String
write_items [] rest = rest
write_items (t ∷ ts) rest = String.◌∷◌ "s" (String.◌∷◌ "s" (write_chars t (write_items ts rest)))

abbrev write : List Field → String
write [] = ""
write (Field.text s ∷ fs) = String.◌∷◌ "t" (String.◌∷◌ "t" (write_chars s (write fs)))
write (Field.number n ∷ fs) = String.◌∷◌ "n" (String.◌∷◌ "n" (write_units n (write fs)))
write (Field.texts ts ∷ fs) = String.◌∷◌ "l" (String.◌∷◌ "l" (write_items ts (write fs)))

abbrev done : List Field → Read
done fs = record { fields = fs; chars = ""; units = 0; items = [] }

pub read-chars :
    (s rest : String) {fs : List Field} {ts : List String}
    → read_from rest ≡ record { fields = fs; chars = ""; units = 0; items = ts }
    → read_from (write_chars s rest) ≡ record { fields = fs; chars = s; units = 0; items = ts }
read-chars String.[] rest h = h
read-chars (String.◌∷◌ c s) rest h = rw (read-chars s rest h)

pub read-items :
    (ts : List String) (rest : String) {fs : List Field}
    → read_from rest ≡ done fs
    → read_from (write_items ts rest) ≡ record { fields = fs; chars = ""; units = 0; items = ts }
read-items [] rest h = h
read-items (t ∷ ts) rest h = rw (read-chars t (write_items ts rest) (read-items ts rest h))

pub read-units :
    (n : ℕ) (rest : String) {fs : List Field}
    → read_from rest ≡ done fs
    → read_from (write_units n rest) ≡ record { fields = fs; chars = ""; units = n; items = [] }
read-units zero rest h = h
read-units (suc n) rest h = rw (read-units n rest h)

pub read-write : (fs : List Field) → read_from (write fs) ≡ done fs
read-write [] = refl
read-write (Field.text s ∷ fs) = rw (read-chars s (write fs) (read-write fs))
read-write (Field.number n ∷ fs) = rw (read-units n (write fs) (read-write fs))
read-write (Field.texts ts ∷ fs) = rw (read-items ts (write fs) (read-write fs))

abbrev pub token_json : Json
token_json = record {
  dumps = write;
  loads = λ s. some (read_from s).fields;
  loads-dumps = λ fs. ap (λ r. some r.fields) (read-write fs);
}
