-- ===== src/Cursor/Heads/Aborts.antt =====
-- engine-py/src/cursor.rs: the flag of an aborted transaction over a sequence of statements.
use odoo_rust_orm.Prelude.{
  Bool, true, false, not, List, [], ◌∷◌, ◌++◌, ◌≡◌, refl, arith, ap, ◌∙◌, Bytes, any, if-intro,
}
use odoo_rust_orm.Cursor.Heads.{
  TxFlags, Outcome, done, failed, raised_by_server, statement_rolls_back, track_abort,
}

-- Statements in the order in which they end.
unfoldable pub track_all : TxFlags → List (Bytes × Outcome) → TxFlags
track_all flags [] = flags
track_all flags ((query, outcome) ∷ later) = track_all (track_abort flags query outcome) later

-- A rollback that the server has done.
abbrev pub undoes : Bytes × Outcome → Bool
undoes (query, done) = statement_rolls_back query
undoes (query, failed message) = false

abbrev flagged : Bool → TxFlags
flagged b = record { in_tx = true; aborted = b }

track_abort-aborted :
    (query : Bytes) (outcome : Outcome)
    → undoes (query, outcome) ≡ false
    → track_abort (record { in_tx = true; aborted = true }) query outcome
      ≡ record { in_tx = true; aborted = true }
unfolding track_abort
track_abort-aborted query done h = rw h
track_abort-aborted query (failed message) h =
    if-intro (λ b. flagged b ≡ flagged true) (raised_by_server message) (λ e. refl) (λ e. refl)

track_all-aborted :
    (later : List (Bytes × Outcome))
    → any (λ s. undoes s) later ≡ false
    → track_all (record { in_tx = true; aborted = true }) later
      ≡ record { in_tx = true; aborted = true }
unfolding track_all
track_all-aborted [] h = refl
track_all-aborted ((query, outcome) ∷ later) h =
    rw (track_abort-aborted query outcome (ground arith)) (track_all-aborted later (ground arith))

track_all-append :
    (flags : TxFlags) (before later : List (Bytes × Outcome))
    → track_all flags (before ++ later) ≡ track_all (track_all flags before) later
unfolding track_all
track_all-append flags [] later = refl
track_all-append flags ((query, outcome) ∷ before) later =
    track_all-append (track_abort flags query outcome) before later

track_all-in_tx :
    (flags : TxFlags) (before : List (Bytes × Outcome))
    → flags.in_tx ≡ true
    → (track_all flags before).in_tx ≡ true
unfolding track_all track_abort
track_all-in_tx flags [] h = h
track_all-in_tx flags ((query, outcome) ∷ before) h =
    track_all-in_tx (track_abort flags query outcome) before
      (if-intro (λ (f : TxFlags). f.in_tx ≡ true) (not flags.in_tx) (λ e. ground arith) (λ e. refl))

track_abort-failed :
    (flags : TxFlags) (query message : Bytes)
    → flags.in_tx ≡ true
    → raised_by_server message ≡ true
    → track_abort flags query (failed message) ≡ record { in_tx = true; aborted = true }
unfolding track_abort
track_abort-failed flags query message h g = rw (h, g)

-- In a transaction, an error that the server raised leaves the transaction marked as aborted,
-- whatever went before, as long as no rollback is done after it.
pub track_all-failed :
    (flags : TxFlags) (before later : List (Bytes × Outcome)) (query message : Bytes)
    → flags.in_tx ≡ true
    → raised_by_server message ≡ true
    → any (λ s. undoes s) later ≡ false
    → track_all flags (before ++ (query, failed message) ∷ later)
      ≡ record { in_tx = true; aborted = true }
track_all-failed flags before later query message h g none_later =
    track_all-append flags before ((query, failed message) ∷ later)
    ∙ unfold track_all in
      ap (λ f. track_all f later)
        (track_abort-failed (track_all flags before) query message (track_all-in_tx flags before h)
          g)
      ∙ track_all-aborted later none_later
