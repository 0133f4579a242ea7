-- ===== src/Storage/Export/Purge.antt =====
-- When the keys of exported rows leave the store: at each flush, before the file is published.
use tonggeret.Base.{
  ℕ, ◌≡◌, ◌≢◌, ◌⊎◌, refl, true, Option, none, some, List, [], ◌∷◌, ◌++◌, leb, length, Bool-cases,
  if_intro, inl, inr,
}
use tonggeret.Text.{Str}
use tonggeret.Text.Utf8.{Bytes}
use tonggeret.Error.{Result, ok, err}
use tonggeret.Storage.Json.{Json}
use tonggeret.Storage.Partition.{Partition}
use tonggeret.Storage.Keys.{decode_key, cutoff_prefix}
use tonggeret.Storage.Export.{
  Row, rows_per_batch, Outcomes, Pass, Files, row_of, write_rows, flush, add_moved, open_with,
  open_export, push, then_do, export_decoded, export_item, export_loop, fresh, publish, conclude,
  publish_file, cutoff_micros, run_compaction_once,
}
use tonggeret.Storage.Export.Tally.{Post, Post-then_do, Post-map, append_cons-ne-nil}
use tonggeret.Storage.Export.Removed.{
  has_key, has_key-append, has_key-last, Post-unit, Exports, gone_stays, gone_all,
}

module _ {F64 : Type 0} (json : Json F64) (partition : Partition) (zero_f64 : F64)
    (outcomes : Outcomes)
    (removes : (k : Bytes) (s : partition.Store) → partition.remove k s ≢ none) where
  open partition use {Store, get, remove, get-remove}

  -- the key has left the store, or it leaves it at the next flush
  abbrev Leaves : Bytes → Pass F64 Store → Type 0
  Leaves k p = (get k p.store ≡ none) ⊎ (has_key k p.removals ≡ true) × (p.rows ≢ [])

  abbrev pub Gone : Bytes → Pass F64 Store → Type 0
  Gone k p = get k p.store ≡ none

  flush-Gone :
      (k : Bytes) (export : Option (List (Row F64))) (written : ℕ) (rows : List (Row F64))
      (removals : List Bytes) (store : Store) (moved : ℕ)
      → (get k store ≡ none) ⊎ (has_key k removals ≡ true) × (rows ≢ [])
      → Post (Gone k) (
          add_moved json partition zero_f64 outcomes (
            flush json partition zero_f64 outcomes (record {
              export = export;
              written = written;
              rows = rows;
              removals = removals;
              store = store;
              moved = moved;
            })))
  unfolding flush add_moved write_rows
  flush-Gone k export written [] removals store moved (inl gone) = gone
  flush-Gone k export written [] removals store moved (inr (h, ne)) = absurd (ne refl)
  flush-Gone k none written (r ∷ rs) removals store moved l = tt
  flush-Gone k (some file) written (r ∷ rs) removals store moved l =
      elim (Bool-cases (outcomes.writes written)) [
        | inl good ↦ rw good (elim l [
          | inl gone ↦ gone_stays json partition zero_f64 outcomes removes k removals store gone
          | inr (h, ne) ↦ gone_all json partition zero_f64 outcomes removes k removals store h
        ])
        | inr bad ↦ rw bad tt
      ]

  open_with-Leaves :
      (x : Option (List (Row F64))) (k : Bytes) (p : Pass F64 Store)
      → Leaves k p
      → Post (Leaves k) (open_with json partition zero_f64 outcomes x p)
  unfolding open_with
  open_with-Leaves (some file) k p l = l
  open_with-Leaves none k p l = elim (Bool-cases outcomes.opens) [
    | inl good ↦ rw good l
    | inr bad ↦ rw bad tt
  ]

  -- A key that leaves, and the key of the row itself, leave after a push.
  push-Leaves :
      (k : Bytes) (row : Row F64) (key : Bytes) (p : Pass F64 Store)
      → (k ≡ key) ⊎ Leaves k p
      → Post (Leaves k) (push json partition zero_f64 outcomes row key p)
  unfolding push
  push-Leaves k row key p l =
      let pushed : (get k p.store ≡ none)
          ⊎ (has_key k (p.removals ++ key ∷ []) ≡ true) × (p.rows ++ row ∷ [] ≢ []) =
        elim l [
          | inl same ↦ inr (rw same (has_key-last key p.removals), append_cons-ne-nil p.rows row [])
          | inr old ↦ elim old [
            | inl gone ↦ inl gone
            | inr (h, ne) ↦
                inr (has_key-append k p.removals key h, append_cons-ne-nil p.rows row [])
          ]
        ] in
      elim (Bool-cases (leb rows_per_batch (length (p.rows ++ row ∷ [])))) [
        | inl full ↦ rw full (
            Post-map json partition zero_f64 outcomes (Gone k) (Leaves k) _ (λ q gone. inl gone)
              (flush-Gone k p.export p.written (p.rows ++ row ∷ []) (p.removals ++ key ∷ []) p.store
                p.moved pushed))
        | inr room ↦ rw room pushed
      ]

  export_decoded-Leaves :
      (d : Option (ℕ × Str)) (k key payload : Bytes) (p : Pass F64 Store)
      → ((k ≡ key) × (d ≢ none)) ⊎ Leaves k p
      → Post (Leaves k) (export_decoded json partition zero_f64 outcomes d key payload p)
  unfolding export_decoded open_export
  export_decoded-Leaves none k key payload p (inl (same, ne)) = absurd (ne refl)
  export_decoded-Leaves none k key payload p (inr (inl gone)) = inl gone
  export_decoded-Leaves none k key payload p (inr (inr (h, ne))) =
      inr (has_key-append k p.removals key h, ne)
  export_decoded-Leaves (some (ts, name)) k key payload p (inl (same, ne)) =
      Post-then_do json partition zero_f64 outcomes (λ q. Unit {0}) _ _ _
        (Post-unit (open_with json partition zero_f64 outcomes p.export p))
        (λ q _.
          push-Leaves k (row_of json partition zero_f64 outcomes ts name payload) key q (inl same))
  export_decoded-Leaves (some (ts, name)) k key payload p (inr l) =
      Post-then_do json partition zero_f64 outcomes (Leaves k) _ _ _
        (open_with-Leaves p.export k p l)
        (λ q l'.
          push-Leaves k (row_of json partition zero_f64 outcomes ts name payload) key q (inr l'))

  export_loop-Leaves :
      (items : List (Option (Bytes × Bytes))) (k : Bytes) (p : Pass F64 Store)
      → Exports k items ⊎ Leaves k p
      → Post (Leaves k) (export_loop json partition zero_f64 outcomes items p)
  unfolding export_loop export_item
  export_loop-Leaves [] k p (inr l) = l
  export_loop-Leaves [] k p (inl h) = absurd h
  export_loop-Leaves (none ∷ items) k p l = tt
  export_loop-Leaves (some (key, payload) ∷ items) k p (inl (inr later)) =
      Post-then_do json partition zero_f64 outcomes (λ q. Unit {0}) _ _ _
        (Post-unit (export_decoded json partition zero_f64 outcomes (decode_key key) key payload p))
        (λ q _. export_loop-Leaves items k q (inl later))
  export_loop-Leaves (some (key, payload) ∷ items) k p (inl (inl now)) =
      Post-then_do json partition zero_f64 outcomes (Leaves k) _ _ _
        (export_decoded-Leaves (decode_key key) k key payload p (inl now))
        (λ q l. export_loop-Leaves items k q (inr l))
  export_loop-Leaves (some (key, payload) ∷ items) k p (inr l) =
      Post-then_do json partition zero_f64 outcomes (Leaves k) _ _ _
        (export_decoded-Leaves (decode_key key) k key payload p (inr l))
        (λ q l'. export_loop-Leaves items k q (inr l'))

  -- A key that is read and decodes has left the store by the end of the last flush, if every removal
  -- succeeds and nothing before that fails; nothing has been published then.
  pub pass-Gone :
      (items : List (Option (Bytes × Bytes))) (s : Store) (k : Bytes)
      → Exports k items
      → Post (Gone k) (
          then_do json partition zero_f64 outcomes
            (export_loop json partition zero_f64 outcomes items
              (fresh json partition zero_f64 outcomes s))
            (λ p.
              add_moved json partition zero_f64 outcomes
                (flush json partition zero_f64 outcomes p)))
  pass-Gone items s k x =
      Post-then_do json partition zero_f64 outcomes (Leaves k) _ _ _
        (export_loop-Leaves items k (fresh json partition zero_f64 outcomes s) (inl x))
        (λ p l. flush-Gone k p.export p.written p.rows p.removals p.store p.moved l)

  -- the key has left the store, if the pass returns a number
  abbrev pub Purged : Bytes → Result ℕ × Store × Files F64 → Type 0
  Purged k (ok n, s, files) = get k s ≡ none
  Purged k (err e, s, files) = Unit

  conclude-Purged :
      (k : Bytes) (r : Result (Files F64)) (p : Pass F64 Store) (files : Files F64)
      → Gone k p
      → Purged k (conclude json partition zero_f64 outcomes r p files)
  unfolding conclude
  conclude-Purged k (ok files') p files gone = gone
  conclude-Purged k (err e) p files gone = tt

  publish_file-Purged :
      (k : Bytes) (x : Option (List (Row F64))) (p : Pass F64 Store) (files : Files F64)
      → Gone k p
      → Purged k (publish_file json partition zero_f64 outcomes x p files)
  unfolding publish_file
  publish_file-Purged k none p files gone = gone
  publish_file-Purged k (some rows) p files gone = conclude-Purged k _ p files gone

  publish-Purged :
      (k : Bytes) (r : Result (Unit {0}) × Pass F64 Store) (files : Files F64)
      → Post (Gone k) r
      → Purged k (publish json partition zero_f64 outcomes r files)
  unfolding publish
  publish-Purged k (err e, p) files gone = tt
  publish-Purged k (ok u, p) files gone = publish_file-Purged k p.export p files gone

  -- If every removal succeeds, a pass that returns a number has removed each key that was read and
  -- decodes.
  pub run_compaction_once-Purged :
      (now_micros retention : ℕ) (s : Store) (files : Files F64) (k : Bytes)
      → Exports k (partition.range (cutoff_prefix (cutoff_micros now_micros retention)) s)
      → Purged k
          (run_compaction_once json partition zero_f64 outcomes now_micros (some retention) s files)
  unfolding run_compaction_once
  run_compaction_once-Purged now_micros retention s files k x =
      if_intro (Purged k) outcomes.makes_dir
        (publish-Purged k _ files (
          pass-Gone (partition.range (cutoff_prefix (cutoff_micros now_micros retention)) s) s k x))
        tt
