-- ===== src/Access.antt =====
-- The authorization chain: security/security_context.py, abac_engine.py and authorization_engine.py.
-- Texts are lists of code points. Values are what JSON has, numbers without fractions.
pub mod Abac
pub mod Engine
pub mod Explained
pub mod Answers
mod Tests
use hire_ai.Prelude.{
  ℕ, suc, Bool, true, false, ◌&&◌, ◌||◌, Option, none, some, List, [], ◌∷◌, ltb, ◌==◌,
  if◌then◌else◌,
}
use hire_ai.Leads.{Text}
use hire_ai.Leads.Repository.{same_text}
use hire_ai.Events.Serializer.{Number, pos, negsuc}

mutual
  pub data Value : Type 0 where
    null : Value
    flag : Bool → Value
    number : Number → Value
    text : Text → Value
    array : Values → Value
    dict : Entries → Value

  pub data Values : Type 0 where
    end : Values
    item : Value → Values → Values

  pub data Entries : Type 0 where
    no_entry : Entries
    entry : Text → Value → Entries → Entries

abbrev pub same_number : Number → Number → Bool
same_number (pos a) (pos b) = a == b
same_number (negsuc a) (negsuc b) = a == b
same_number _ _ = false

abbrev pub number_below : Number → Number → Bool
number_below (pos a) (pos b) = ltb a b
number_below (pos a) (negsuc b) = false
number_below (negsuc a) (pos b) = true
number_below (negsuc a) (negsuc b) = ltb b a

-- `True` is 1 and `False` is 0.
abbrev pub of_flag : Bool → Number
of_flag true = pos 1
of_flag false = pos 0

abbrev pub lookup : Text → Entries → Option Value
lookup key no_entry = none
lookup key (entry k v rest) = if same_text k key then some v else lookup key rest

abbrev pub size : Entries → ℕ
size no_entry = 0
size (entry k v rest) = suc (size rest)

-- `==`; of two dictionaries, that they have as many keys and the same value at each.
unfoldable mutual
  pub same_value : Value → Value → Bool
  same_value null null = true
  same_value (flag a) (flag b) = same_number (of_flag a) (of_flag b)
  same_value (flag a) (number n) = same_number (of_flag a) n
  same_value (number m) (flag b) = same_number m (of_flag b)
  same_value (number m) (number n) = same_number m n
  same_value (text a) (text b) = same_text a b
  same_value (array xs) (array ys) = same_values xs ys
  same_value (dict fs) (dict gs) = (size fs == size gs) && covered fs gs
  same_value _ _ = false

  pub same_values : Values → Values → Bool
  same_values end end = true
  same_values (item x xs) (item y ys) = same_value x y && same_values xs ys
  same_values _ _ = false

  pub covered : Entries → Entries → Bool
  covered no_entry gs = true
  covered (entry k v fs) gs =
      elim (lookup k gs) [ none ↦ false | some w ↦ same_value v w ] && covered fs gs

-- The order of texts, by code points.
abbrev pub text_below : Text → Text → Bool
text_below [] [] = false
text_below [] (b ∷ bs) = true
text_below (a ∷ cs) [] = false
text_below (a ∷ cs) (b ∷ ds) = ltb a b || ((a == b) && text_below cs ds)

-- `<`; none for the TypeError of values that are not ordered.
unfoldable mutual
  unfolding same_value

  pub below : Value → Value → Option Bool
  below (flag a) (flag b) = some (number_below (of_flag a) (of_flag b))
  below (flag a) (number n) = some (number_below (of_flag a) n)
  below (number m) (flag b) = some (number_below m (of_flag b))
  below (number m) (number n) = some (number_below m n)
  below (text a) (text b) = some (text_below a b)
  below (array xs) (array ys) = values_below xs ys
  below _ _ = none

  pub values_below : Values → Values → Option Bool
  values_below end end = some false
  values_below end (item y ys) = some true
  values_below (item x xs) end = some false
  values_below (item x xs) (item y ys) =
      let first = below x y in
      let rest = values_below xs ys in if same_value x y then rest else first
