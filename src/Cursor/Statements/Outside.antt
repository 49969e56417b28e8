-- ===== src/Cursor/Statements/Outside.antt =====
-- engine-py/src/cursor.rs: what the scans report stands outside the opaque regions.
use odoo_rust_orm.Prelude.{
  ℕ, zero, suc, ◌+◌, ◌-◌, Bool, true, false, not, ◌&&◌, ◌||◌, List, [], ◌∷◌, ◌++◌, none, some, ◌≡◌,
  refl, sym, ap, ◌∙◌, arith, Bytes, codes, bytes_eq, drop, any, ◌==◌, if◌then◌else◌, Bool-cases,
  Option-cases, inl, inr, option-intro, if-intro,
}
use odoo_rust_orm.Scan.{drop-drop}
use odoo_rust_orm.Sqllex.{opaque}
use odoo_rust_orm.Cursor.Statements.{
  skip_opaque, is_space, keyword_at, keyword_from, has_bare_keyword, more_from,
  has_multiple_statements, is_modifying, is_primary, primary, words_return_rows,
}

drop_next : (i c : ℕ) (rest bytes : Bytes) → drop i bytes ≡ c ∷ rest → drop (i + 1) bytes ≡ rest
drop_next i c rest bytes d = sym (drop-drop 1 i bytes) ∙ ap (drop 1) d

primary-skip :
    (before : List Bytes) (word : Bytes) (after : List Bytes)
    → any (λ w. is_primary w) before ≡ false
    → is_primary word ≡ true
    → primary (before ++ word ∷ after) ≡ some (word, after)
unfolding primary
primary-skip [] word after h g = rw g
primary-skip (b ∷ before) word after h g =
    let here : is_primary b ≡ false = ground arith in
    rw here (primary-skip before word after (ground arith) g)

module _ (sql : Bytes) where
  -- A place at which no opaque region starts, and what is read there.
  pub record Outside (holds_at : ℕ → Bytes → Type 0) : Type 0 where
    pub place : ℕ
    pub from_place : Bytes
    pub reads : drop place sql ≡ from_place
    pub no_region : opaque sql place ≡ none
    pub holds : holds_at place from_place

  abbrev Stands : Bytes → ℕ → Bytes → Type 0
  Stands keyword i rest = keyword_at sql keyword i rest ≡ true

  skip_opaque-none : (i : ℕ) → skip_opaque sql i ≡ none → opaque sql i ≡ none
  skip_opaque-none i h = elim (Option-cases (opaque sql i)) [
    | inl e ↦ e
    | inr (token, e) ↦ ground arith
  ]

  keyword_from-Outside :
      (keyword : Bytes) (skip i : ℕ) (rest : Bytes)
      → drop i sql ≡ rest
      → keyword_from sql keyword skip i rest ≡ true
      → Outside (Stands keyword)
  unfolding keyword_from
  keyword_from-Outside keyword skip i [] d h = cc
  keyword_from-Outside keyword (suc skip) i (c ∷ rest) d h =
      keyword_from-Outside keyword skip (i + 1) rest (drop_next i c rest sql d) h
  keyword_from-Outside keyword zero i (c ∷ rest) d h = elim (Option-cases (skip_opaque sql i)) [
    | inl e ↦ elim (Bool-cases (keyword_at sql keyword i (c ∷ rest))) [
      | inl stands ↦ record {
        place = i;
        from_place = c ∷ rest;
        reads = d;
        no_region = skip_opaque-none i e;
        holds = stands;
      }
      | inr missing ↦
          keyword_from-Outside keyword zero (i + 1) rest (drop_next i c rest sql d)
            (rw (keyword_from, e, missing) at h)
    ]
    | inr (end, e) ↦
        keyword_from-Outside keyword (end - i - 1) (i + 1) rest (drop_next i c rest sql d)
          (rw (keyword_from, e) at h)
  ]

  -- A bare keyword that the scan reports stands outside the opaque regions, by itself: no string, no
  -- quoted name and no comment can make a statement seem to have it.
  pub has_bare_keyword-Outside :
      (keyword : Bytes)
      → has_bare_keyword sql keyword ≡ true
      → Outside (λ i rest. keyword_at sql keyword i rest ≡ true)
  unfolding has_bare_keyword
  has_bare_keyword-Outside keyword h = keyword_from-Outside keyword 0 0 sql refl h

  abbrev Semicolon : ℕ → Bytes → Type 0
  Semicolon i from_i = (rest : Bytes) × (from_i ≡ b';' ∷ rest)

  Semicolon-before :
      (after : Bool) (i c : ℕ) (rest : Bytes)
      → drop i sql ≡ c ∷ rest
      → opaque sql i ≡ none
      → (after ≡ true → Outside Semicolon)
      → (c == b';' || after) ≡ true
      → Outside Semicolon
  Semicolon-before after i c rest d none_here before h = elim (Bool-cases (c == b';')) [
    | inl e ↦ record {
      place = i;
      from_place = c ∷ rest;
      reads = d;
      no_region = none_here;
      holds = (rest, ap (λ b. b ∷ rest) (ground arith));
    }
    | inr e ↦ before (ground arith)
  ]

  abbrev Shows : Bool → Type 0
  Shows b = b ≡ true → Outside Semicolon

  more_from-Outside :
      (after : Bool) (skip i : ℕ) (rest : Bytes)
      → drop i sql ≡ rest
      → (after ≡ true → Outside Semicolon)
      → Shows (more_from sql after skip i rest)
  unfolding more_from
  more_from-Outside after skip i [] d before = λ h. cc
  more_from-Outside after (suc skip) i (c ∷ rest) d before =
      more_from-Outside after skip (i + 1) rest (drop_next i c rest sql d) before
  more_from-Outside after zero i (c ∷ rest) d before =
      option-intro Shows (skip_opaque sql i)
        (λ e.
          if-intro Shows (not (c == b';') && after && not (is_space c))
            (λ more _. before (ground arith))
            (λ none_here.
              more_from-Outside (c == b';' || after) zero (i + 1) rest (drop_next i c rest sql d)
                (Semicolon-before after i c rest d (skip_opaque-none i e) before)))
        (λ end e.
          if-intro Shows (after && not (c == b'-' || c == b'/')) (λ more _. before (ground arith))
            (λ none_here.
              more_from-Outside after (end - i - 1) (i + 1) rest (drop_next i c rest sql d) before))

  -- A text that is taken for several statements has a semicolon outside the opaque regions.
  pub has_multiple_statements-Outside :
      has_multiple_statements sql ≡ true
      → Outside (λ i from_i. (rest : Bytes) × (from_i ≡ b';' ∷ rest))
  unfolding has_multiple_statements
  has_multiple_statements-Outside h = more_from-Outside false 0 0 sql refl (λ e. cc) h

-- The first keyword after the common table expressions decides: a statement that modifies returns
-- rows where RETURNING follows it at its own level, and any other does.
pub words_return_rows-is_modifying :
    (first : Bytes) (before : List Bytes) (word : Bytes) (after : List Bytes)
    → any (λ w. is_primary w) before ≡ false
    → is_primary word ≡ true
    → words_return_rows (first ∷ (before ++ word ∷ after))
      ≡ (if is_modifying word then any (λ w. bytes_eq w (codes "RETURNING")) after else true)
unfolding words_return_rows
words_return_rows-is_modifying first before word after h g =
    rw (words_return_rows, primary-skip before word after h g) (by_kind (is_modifying word))
  where
    by_kind :
        (m : Bool)
        → (if not m then true else any (λ w. bytes_eq w (codes "RETURNING")) after)
          ≡ (if m then any (λ w. bytes_eq w (codes "RETURNING")) after else true)
    by_kind true = refl
    by_kind false = refl
