-- ===== src/Registry/Normalize/Settled.antt =====
-- kernel/src/registry.rs: what `Registry::normalize_model` leaves of a model.
use odoo_rust_orm.Prelude.{
  Bool, true, false, List, [], ◌∷◌, ◌++◌, Option, none, some, Bytes, codes, all, ◌≡◌, refl, sym,
  ap₂, ◌∙◌, ◌⊎◌, inl, inr, if-intro, subst,
}
use odoo_rust_orm.Registry.Fields.{Model}
use odoo_rust_orm.Registry.Normalize.{
  find, is_blank, renders_column, is_bool_column, renders_name, settle_columns, settle_active_from,
  settle_active, settle_rec_from, settle_rec, normalize_model,
}

-- A name that there is has the property.
abbrev pub Given : (Bytes → Bool) → Option Bytes → Type 0
Given p none = Unit
Given p (some n) = p n ≡ true

-- A search that its declared name cannot serve is kept from the kernel.
pub record SearchRefused (m : Model) : Type 0 where
  pub unnamed : m.active_name ≡ none
  pub impure : m.read_path_pure ≡ false
  pub kept_before : List Bytes
  pub listed : m.impure_read_methods ≡ kept_before ++ codes "_search" ∷ []

pub record Settled (text_columns : List (Bytes × List Bytes)) (before after : Model) : Type 0 where
  pub fields : after.fields ≡ before.fields
  pub columns : all (renders_column text_columns after.fields) after.display_name_column ≡ true
  pub active : Given (is_bool_column after.fields) after.active_name
  pub names : Given (renders_name after.fields) after.rec_name
  -- A declared name is kept or given up, but no default takes its place.
  pub declared :
      (before.active_name ≡ none) ⊎ ((after.active_name ≡ before.active_name) ⊎ SearchRefused after)

find-Given : (p : Bytes → Bool) (ns : List Bytes) → Given p (find p ns)
find-Given p [] = tt
find-Given p (n ∷ ns) = if-intro (Given p) (p n) (λ e. e) (λ e. find-Given p ns)

-- What settling the columns leaves to the other steps.
abbrev ColumnsSettled : List (Bytes × List Bytes) → Model → Model → Type 0
ColumnsSettled text_columns before after =
    (after.fields ≡ before.fields)
    × (after.active_name ≡ before.active_name)
    × (all (renders_column text_columns after.fields) after.display_name_column ≡ true)

blank_all : (p : Bytes → Bool) (ns : List Bytes) → is_blank ns ≡ true → all p ns ≡ true
blank_all p [] h = refl
blank_all p (n ∷ ns) h = cc

settle_columns-ColumnsSettled :
    (text_columns : List (Bytes × List Bytes)) (m : Model)
    → ColumnsSettled text_columns m (settle_columns text_columns m)
unfolding settle_columns
settle_columns-ColumnsSettled text_columns m =
    if-intro (ColumnsSettled text_columns m) (is_blank m.display_name_column)
      (λ e. (refl, refl, blank_all _ m.display_name_column e))
      (λ e.
        if-intro (ColumnsSettled text_columns m)
          (all (renders_column text_columns m.fields) m.display_name_column)
          (λ shown. (refl, refl, shown)) (λ other. (refl, refl, refl)))

abbrev ActiveSettled : Model → Option Bytes → Model → Type 0
ActiveSettled before declared after =
    (after.fields ≡ before.fields)
    × (after.display_name_column ≡ before.display_name_column)
    × Given (is_bool_column after.fields) after.active_name
    × ((declared ≡ none) ⊎ ((after.active_name ≡ declared) ⊎ SearchRefused after))

settle_active-ActiveSettled :
    (m : Model) (declared : Option Bytes)
    → m.active_name ≡ declared
    → ActiveSettled m declared (settle_active_from m declared)
unfolding settle_active_from
settle_active-ActiveSettled m none is = (
  refl,
  refl,
  find-Given (is_bool_column m.fields) (codes "active" ∷ codes "x_active" ∷ []),
  inl refl,
)
settle_active-ActiveSettled m (some declared) is =
    if-intro (ActiveSettled m (some declared)) (is_bool_column m.fields declared)
      (λ e. (refl, refl, subst (Given (is_bool_column m.fields)) (sym is) e, inr (inl is)))
      (λ e. (
        refl,
        refl,
        tt,
        inr (
            inr (record {
              unnamed = refl;
              impure = refl;
              kept_before = m.impure_read_methods;
              listed = refl;
            })),
      ))

abbrev RecSettled : Model → Model → Type 0
RecSettled before after =
    (after.fields ≡ before.fields)
    × (after.display_name_column ≡ before.display_name_column)
    × (after.active_name ≡ before.active_name)
    × (after.read_path_pure ≡ before.read_path_pure)
    × (after.impure_read_methods ≡ before.impure_read_methods)
    × Given (renders_name after.fields) after.rec_name

settle_rec-RecSettled :
    (m : Model) (declared : Bool) (name : Option Bytes)
    → RecSettled m (settle_rec_from m declared name)
unfolding settle_rec_from
settle_rec-RecSettled m declared none = (refl, refl, refl, refl, refl, tt)
settle_rec-RecSettled m declared (some rn) =
    if-intro (RecSettled m) (renders_name m.fields rn) (λ e. (refl, refl, refl, refl, refl, e))
      (λ e. (refl, refl, refl, refl, refl, tt))

-- The fields of a settled model are those it had; each name of `display_name_column` renders, the
-- active name is a stored boolean column and the record name renders, where there are any; and
-- where a declared active name is given up, the search is refused and no default takes its place.
pub normalize_model-Settled :
    (text_columns : List (Bytes × List Bytes)) (m : Model)
    → Settled text_columns m (normalize_model text_columns m)
unfolding normalize_model settle_active settle_rec
normalize_model-Settled text_columns m =
    let one = settle_columns text_columns m in
    let two = settle_active_from one one.active_name in
    let (fields_1, active_1, columns_1) = settle_columns-ColumnsSettled text_columns m in
    let (fields_2, columns_2, active_2, declared_2) =
      settle_active-ActiveSettled one one.active_name refl in
    let (fields_3, columns_3, active_3, pure_3, listed_3, names_3) =
      settle_rec-RecSettled two _ _ in
    record {
      fields = fields_3 ∙ fields_2 ∙ fields_1;
      columns =
          ap₂ (λ fs cs. all (renders_column text_columns fs) cs) (fields_3 ∙ fields_2)
            (columns_3 ∙ columns_2)
          ∙ columns_1;
      active =
          subst (λ fs. Given (is_bool_column fs) (normalize_model text_columns m).active_name)
            (sym fields_3) (subst (Given (is_bool_column two.fields)) (sym active_3) active_2);
      names = names_3;
      declared = elim declared_2 [
        | inl none_given ↦ inl (sym active_1 ∙ none_given)
        | inr (inl kept) ↦ inr (inl (active_3 ∙ kept ∙ active_1))
        | inr (inr refused) ↦ inr (
            inr (record {
              unnamed = active_3 ∙ SearchRefused.unnamed refused;
              impure = pure_3 ∙ SearchRefused.impure refused;
              kept_before = SearchRefused.kept_before refused;
              listed = listed_3 ∙ SearchRefused.listed refused;
            }))
      ];
    }
