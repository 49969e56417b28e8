-- ===== src/Sqlgen/Leaves/Passes.antt =====
-- kernel/src/sqlgen.rs: the steps of the chains of `optimize_leaf`, each of which tests for something
-- and leaves the leaf to the next where it does not find it.
use odoo_rust_orm.Prelude.{
  Bool, true, false, not, any, ◌&&◌, ◌||◌, List, Option, none, some, if◌then◌else◌, ◌≡◌, refl,
}
use odoo_rust_orm.Error.{Result, ok, err, refuse, Each}
use odoo_rust_orm.Json.{Json}
use odoo_rust_orm.Domain.{Leaf, Node}
use odoo_rust_orm.Registry.Fields.{Field}
use odoo_rust_orm.Sqlgen.Class.{is_linked, Step, pass, keep, into, or_else}
use odoo_rust_orm.Sqlgen.Comparands.{is_true}
use odoo_rust_orm.Sqlgen.Members.{with_members, if_rewritten, refuse_true}
use odoo_rust_orm.Sqlgen.Orders.{numeric_of}

-- Whatever a step tests for, it does not find where it leaves the leaf to the next.
abbrev pub Passed : Bool → Step → Type 0
Passed b pass = b ≡ false
Passed b keep = b ≡ false
Passed b (into n) = Unit

-- A step that does not end the chain with the leaf as it is.
abbrev pub Passes : Bool → Step → Type 0
Passes b pass = b ≡ false
Passes b keep = ⊥
Passes b (into n) = Unit

pub or_else-Passed :
    (a b : Bool) (first next : Result Step)
    → Each (Passes a) first
    → Each (Passed b) next
    → Each (Passed (a || b)) (or_else first next)
or_else-Passed a b (ok pass) (ok pass) h g = rw (h, g) refl
or_else-Passed a b (ok pass) (ok keep) h g = rw (h, g) refl
or_else-Passed a b (ok pass) (ok (into n)) h g = tt
or_else-Passed a b (ok pass) (err chain) h g = tt
or_else-Passed a b (ok keep) next h g = elim h [ ]
or_else-Passed a b (ok (into n)) next h g = tt
or_else-Passed a b (err chain) next h g = tt

pub with_members-Passes :
    (b : Bool) (l : Leaf) (items : Result (List Json)) → Each (Passes b) (with_members l items)
with_members-Passes b l (ok xs) = tt
with_members-Passes b l (err chain) = tt

pub Passed-last : (b : Bool) (n : Node) → Each (Passed b) (if b then ok (into n) else ok keep)
Passed-last true n = tt
Passed-last false n = refl

pub Passes-members :
    (b : Bool) (l : Leaf) (items : Result (List Json))
    → Each (Passes b) (if b then with_members l items else ok pass)
Passes-members true l items = with_members-Passes true l items
Passes-members false l items = refl

-- A step of two conversions, for the fields of one type.
pub Passes-two :
    (t a b : Bool) (n m : Step)
    → Passes true n
    → Passes true m
    → Each
        (Passes (t && (a || b)))
        (if t then if a then ok n else if b then ok m else ok pass else ok pass)
Passes-two false a b n m p q = refl
Passes-two true true b n m p q = p
Passes-two true false true n m p q = q
Passes-two true false false n m p q = refl

abbrev pub Converted : Bool → Option Node → Type 0
Converted b none = b ≡ false
Converted b (some n) = Unit

pub if_rewritten-Passes :
    (b : Bool) (r : Result (Option Node)) → Each (Converted b) r → Each (Passes b) (if_rewritten r)
if_rewritten-Passes b (ok none) h = h
if_rewritten-Passes b (ok (some n)) h = tt
if_rewritten-Passes b (err chain) h = tt

-- What holds where a step keeps the leaf.
abbrev pub Keeps : Type 0 → Step → Type 0
Keeps P pass = P
Keeps P keep = P
Keeps P (into n) = Unit

pub Passed-Keeps : (P : Type 0) (b : Bool) (s : Step) → (b ≡ false → P) → Passed b s → Keeps P s
Passed-Keeps P b pass h p = h p
Passed-Keeps P b keep h p = h p
Passed-Keeps P b (into n) h p = tt

pub Passes-next :
    (b : Bool) (r : Result Step) → Each (Passes true) r → Each (Passes b) (if b then r else ok pass)
Passes-next true r h = h
Passes-next false r h = refl

pub refuse_found : (b : Bool) → Each (Passes b) (if b then refuse else ok pass)
refuse_found true = tt
refuse_found false = refl

-- Whether a stored relation has true among its members, which no search of its own takes.
abbrev pub links_true : Option Field → List Json → Bool
links_true none items = false
links_true (some f) items =
    is_linked f.ttype && (f.stored && (not f.custom_search && any (λ v. is_true v) items))

pub refuse_true-Passes :
    (field : Option Field) (items : List Json)
    → Each (Passes (links_true field items)) (refuse_true field items)
unfolding refuse_true
refuse_true-Passes none items = refl
refuse_true-Passes (some f) items = refuse_found _

pub numeric_of-Passes : (l : Leaf) (r : Result (Option Json)) → Each (Passes true) (numeric_of l r)
numeric_of-Passes l (ok none) = tt
numeric_of-Passes l (ok (some n)) = tt
numeric_of-Passes l (err chain) = tt
