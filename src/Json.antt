-- ===== src/Json.antt =====
-- serde_json values as kernel/src/domain.rs reads them.
use odoo_rust_orm.Prelude.{ℕ, Bool, ◌||◌, List, [], ◌∷◌, Bytes, ◌==◌, if◌then◌else◌}

-- serde_json's three representations; a `float` is the bit pattern of its double.
pub data Number : Type 0 where
  pos_int neg_int float : ℕ → Number

mutual
  pub data Json : Type 0 where
    null : Json
    bool : Bool → Json
    number : Number → Json
    string : Bytes → Json
    array : Items → Json
    object : Fields → Json

  pub data Items : Type 0 where
    nil : Items
    cons : Json → Items → Items

  pub data Fields : Type 0 where
    end : Fields
    field : Bytes → Json → Fields → Fields

abbrev pub to_list : Items → List Json
to_list nil = []
to_list (cons x xs) = x ∷ to_list xs

abbrev pub of_list : List Json → Items
of_list [] = nil
of_list (x ∷ xs) = cons x (of_list xs)

pub data Sentinel : Type 0 where
  zero_value one_value other_value : Sentinel

-- Which of 1.0 and 0.0 a number equals as a double (-0.0 is 0.0).
unfoldable pub sentinel_of : Number → Sentinel
sentinel_of (pos_int n) = if n == 1 then one_value else if n == 0 then zero_value else other_value
sentinel_of (neg_int _) = other_value
sentinel_of (float bits) =
    if bits == 0x3FF0000000000000
    then one_value
    else if bits == 0 || bits == 0x8000000000000000
    then zero_value
    else other_value
