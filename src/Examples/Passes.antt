-- ===== src/Examples/Passes.antt =====
-- A pass over a store with one expired sample.
use tonggeret.Base.{
  ◌≡◌, ◌≢◌, inl, inr, refl, sym, ◌∙◌, true, false, none, some, [], ◌∷◌, none≢some, All, codes,
  arith,
}
use mathlib.Core.Path.{subst}
use tonggeret.Text.Utf8.{Bytes}
use tonggeret.Storage.Keys.{encode_key, decode_key, cutoff_prefix}
use tonggeret.Storage.Keys.RoundTrip.{decode_key-encode_key}
use tonggeret.Storage.Export.{Outcomes, cutoff_micros, run_compaction_once}
use tonggeret.Storage.Export.Tally.{rows_of}
use tonggeret.Storage.Export.Publish.{Published, run_compaction_once-Published}
use tonggeret.Storage.Export.Removed.{Exports}
use tonggeret.Storage.Export.Loss.{Lost, run_compaction_once-Lost, Exports-rows_of}
use tonggeret.Storage.Export.Refines.{IsMoved, run_compaction_once-IsMoved}
use tonggeret.Storage.ColdFiles.Served.{IsFound, run_compaction_once-IsFound}
use tonggeret.Storage.Loop.{compaction_loop, get-compaction_loop}
use tonggeret.Examples.Values.{json}
use tonggeret.Examples.Stores.{partition, Items, removes}

abbrev pub key : Bytes
key = encode_key 1000 7 (codes "up")

abbrev pub store : Items
store = (key, codes "e") ∷ []

-- all goes well
abbrev pub fine : Outcomes
fine = record {
  makes_dir = true;
  opens = true;
  writes = λ n. true;
  closes = true;
  renames = true;
  final_stamp = codes "t";
}

-- the file cannot be renamed
abbrev kept_name : Outcomes
kept_name = record fine { renames = false }

expired :
    partition.range (cutoff_prefix (cutoff_micros 5000 1000)) store ≡ some (key, codes "e") ∷ []
unfolding cutoff_prefix tonggeret.Text.str_eq encode_key tonggeret.Text.Utf8.utf8
    tonggeret.Text.Hex.hex tonggeret.Storage.Keys.lex_ltb cutoff_micros
expired = refl

decodes : decode_key key ≢ none
decodes e = none≢some (
    sym e
    ∙ decode_key-encode_key 1000 7 (codes "up") (omega arith) (omega arith) (refl, (refl, tt)))

exported : Exports key (partition.range (cutoff_prefix (cutoff_micros 5000 1000)) store)
exported = subst (Exports key) (sym expired) (inl (refl, decodes))

items_read : All (λ i. i ≢ none) (partition.range (cutoff_prefix (cutoff_micros 5000 1000)) store)
items_read = subst (λ items. All (λ i. i ≢ none) items) (sym expired) ((λ e. cc), tt)

run_compaction_once-Published_example :
    Published json partition 0 fine
      (rows_of json partition 0 fine
        (partition.range (cutoff_prefix (cutoff_micros 5000 1000)) store))
      []
      (run_compaction_once json partition 0 fine 5000 (some 1000) store [])
run_compaction_once-Published_example =
    run_compaction_once-Published json partition 0 fine 5000 1000 store []

run_compaction_once-Lost_example :
    Lost json partition 0 kept_name refl
      (λ n. refl)
      key
      []
      (run_compaction_once json partition 0 kept_name 5000 (some 1000) store [])
run_compaction_once-Lost_example =
    run_compaction_once-Lost json partition 0 kept_name refl (λ n. refl) refl (inr refl) removes
      5000 1000 store [] key items_read exported

run_compaction_once-IsMoved_example :
    IsMoved json partition 0 fine 4000 1000 7
      (codes "up")
      store
      []
      (run_compaction_once json partition 0 fine 5000 (some 1000) store [])
unfolding cutoff_micros
run_compaction_once-IsMoved_example =
    run_compaction_once-IsMoved json partition 0 fine refl (λ n. refl) refl refl refl removes 5000
      1000 store [] 1000 7 (codes "up") items_read (omega arith) (omega arith) (omega arith)
      (refl, (refl, tt))

run_compaction_once-IsFound_example :
    IsFound json partition 0 fine []
      (run_compaction_once json partition 0 fine 5000 (some 1000) store [])
run_compaction_once-IsFound_example =
    run_compaction_once-IsFound json partition 0 fine 5000 1000 store []
      (Exports-rows_of json partition 0 fine refl (λ n. refl) key
        (partition.range (cutoff_prefix (cutoff_micros 5000 1000)) store) exported)
      tt

get-compaction_loop_example :
    partition.get
      (encode_key 4500 7 (codes "up"))
      (compaction_loop json partition 0 true
        (some 1000)
        (record { now_micros = 5000; outcomes = fine }
          ∷ record { now_micros = 5400; outcomes = kept_name }
          ∷ [])
        (store, [])).0
    ≡ partition.get (encode_key 4500 7 (codes "up")) store
unfolding cutoff_micros
get-compaction_loop_example =
    get-compaction_loop json partition 0 true 1000 4500 7 (codes "up")
      (record { now_micros = 5000; outcomes = fine }
        ∷ record { now_micros = 5400; outcomes = kept_name }
        ∷ [])
      store [] (omega arith) (omega arith)
      ((omega arith, omega arith), ((omega arith, omega arith), tt))
