-- ===== src/Examples/Faults.antt =====
-- Passes that lose or leave samples, at concrete inputs.
use tonggeret.Base.{
  ℕ, true, false, ◌≡◌, ◌≢◌, refl, sym, ◌∙◌, none, some, none≢some, Option, List, [], ◌∷◌, All,
  codes, arith,
}
use tonggeret.Text.Utf8.{Bytes}
use tonggeret.Error.{ok}
use tonggeret.Storage.Keys.{encode_key, decode_key, cutoff_prefix}
use tonggeret.Storage.Keys.Order.{lex_ltb-cutoff_prefix}
use tonggeret.Storage.Keys.RoundTrip.{decode_key-encode_key}
use tonggeret.Storage.Export.{cutoff_micros, run_compaction_once}
use tonggeret.Storage.Export.Tally.{rows_of}
use tonggeret.Storage.Export.Publish.{published}
use tonggeret.Storage.Export.Removed.{Exports}
use tonggeret.Storage.Export.Items.{has_item-Exports}
use tonggeret.Storage.Export.Stays.{get-run_compaction_once}
use tonggeret.Storage.Export.Twice.{run_compaction_once-replaces}
use tonggeret.Storage.Export.Undecodable.{IsUndecodable, run_compaction_once-undecodable}
use tonggeret.Text.{Str, str_eq}
use tonggeret.Storage.Export.{Outcomes, final_name}
use tonggeret.Storage.Loop.{Turn, compaction_loop}
use tonggeret.Storage.Loop.Safe.{IsFine, IsKept, file_name, compaction_loop-IsKept}
use tonggeret.Examples.Values.{json}
use tonggeret.Examples.Stores.{partition, Items, removes, below_read}
use tonggeret.Examples.Passes.{key, fine}

-- a sample that expires later
abbrev later_key : Bytes
later_key = encode_key 4500 8 (codes "up")

abbrev both : Items
both = (later_key, codes "l") ∷ (key, codes "e") ∷ []

abbrev first_expired : List (Option (Bytes × Bytes))
first_expired = partition.range (cutoff_prefix (cutoff_micros 5000 1000)) both

abbrev after_first : Items
after_first = (run_compaction_once json partition 0 fine 5000 (some 1000) both []).1

decodes : decode_key key ≢ none
decodes e = none≢some (
    sym e
    ∙ decode_key-encode_key 1000 7 (codes "up") (omega arith) (omega arith) (refl, (refl, tt)))

later_decodes : decode_key later_key ≢ none
later_decodes e = none≢some (
    sym e
    ∙ decode_key-encode_key 4500 8 (codes "up") (omega arith) (omega arith) (refl, (refl, tt)))

first_held : partition.get key both ≡ some (codes "e")
unfolding encode_key tonggeret.Text.str_eq tonggeret.Text.Utf8.utf8 tonggeret.Text.Hex.hex
first_held = refl

later_held : partition.get later_key both ≡ some (codes "l")
unfolding encode_key tonggeret.Text.str_eq tonggeret.Text.Utf8.utf8 tonggeret.Text.Hex.hex
later_held = refl

exported : Exports key first_expired
unfolding cutoff_micros
exported = has_item-Exports key (codes "e") first_expired decodes (
    partition.get-range (cutoff_prefix 4000) both (below_read (cutoff_prefix 4000) both both) key
      (codes "e") first_held
      (lex_ltb-cutoff_prefix 1000 7 4000 (codes "up") (omega arith) (omega arith) (omega arith)))

-- the pass leaves the later sample in the store
left : partition.get later_key after_first ≡ some (codes "l")
unfolding cutoff_micros
left =
    get-run_compaction_once json partition 0 fine 5000 1000 both [] later_key
      (lex_ltb-cutoff_prefix 4500 8 4000 (codes "up") (omega arith) (omega arith) (omega arith))
    ∙ later_held

exported_later :
    Exports later_key (partition.range (cutoff_prefix (cutoff_micros 6000 1000)) after_first)
unfolding cutoff_micros
exported_later =
    has_item-Exports later_key (codes "l") (partition.range (cutoff_prefix 5000) after_first)
      later_decodes
      (partition.get-range (cutoff_prefix 5000) after_first
        (below_read (cutoff_prefix 5000) after_first after_first) later_key (codes "l") left
        (lex_ltb-cutoff_prefix 4500 8 5000 (codes "up") (omega arith) (omega arith) (omega arith)))

run_compaction_once-replaces_example :
    ((run_compaction_once json partition 0 fine 6000
        (some 1000)
        after_first
        (run_compaction_once json partition 0 fine 5000 (some 1000) both []).2).2
      ≡ published json partition 0 fine
          (rows_of json partition 0 fine
            (partition.range (cutoff_prefix (cutoff_micros 6000 1000)) after_first))
          [])
    × (partition.get key
          (run_compaction_once json partition 0 fine 6000
            (some 1000)
            after_first
            (run_compaction_once json partition 0 fine 5000 (some 1000) both []).2).1
        ≡ none)
run_compaction_once-replaces_example =
    run_compaction_once-replaces json partition 0 fine refl (λ n. refl) refl refl refl removes 5000
      1000 both [] 6000 1000 key later_key
      (below_read (cutoff_prefix (cutoff_micros 5000 1000)) both both) exported
      (below_read (cutoff_prefix (cutoff_micros 6000 1000)) after_first after_first) exported_later

-- a key without a colon
abbrev odd : Items
odd = (codes "0", codes "v") ∷ []

odd_item : All IsUndecodable (partition.range (cutoff_prefix (cutoff_micros 5000 1000)) odd)
unfolding cutoff_prefix cutoff_micros decode_key tonggeret.Text.str_eq tonggeret.Text.Hex.hex
    tonggeret.Text.Utf8.utf8 tonggeret.Storage.Keys.lex_ltb tonggeret.Text.Utf8.from_utf8
    tonggeret.Storage.Keys.split_colon
odd_item = (record { key = codes "0"; payload = codes "v"; read = refl; undecodable = refl }, tt)

run_compaction_once-undecodable_example :
    run_compaction_once json partition 0 fine 5000 (some 1000) odd [] ≡ (ok 0, odd, [])
run_compaction_once-undecodable_example =
    run_compaction_once-undecodable json partition 0 fine refl 5000 1000 odd [] odd_item

-- the second pass meets the file of the first
abbrev second : Outcomes
second = record fine { final_stamp = codes "u" }

abbrev turns : List Turn
turns =
    record { now_micros = 5000; outcomes = fine }
    ∷ record { now_micros = 6000; outcomes = second }
    ∷ []

names_differ :
    str_eq (file_name (record { now_micros = 5000; outcomes = fine })) (final_name (codes "u"))
    ≡ false
unfolding final_name str_eq
names_differ = refl

all_fine :
    (now : ℕ) (stamp : Str)
    → IsFine (record { now_micros = now; outcomes = record fine { final_stamp = stamp } })
all_fine now stamp = record {
  makes_dir = refl;
  opens = refl;
  writes = λ n. refl;
  closes = refl;
  renames = refl;
}

compaction_loop-IsKept_example :
    IsKept json partition 0 removes
      (λ bound s. below_read bound s s)
      4500
      8
      (codes "up")
      (codes "l")
      (compaction_loop json partition 0 true (some 1000) turns (both, []))
unfolding cutoff_micros
compaction_loop-IsKept_example =
    compaction_loop-IsKept json partition 0 removes (λ bound s. below_read bound s s) true 1000 4500
      8 (codes "up") (codes "l") turns both [] (omega arith) (omega arith) (refl, (refl, tt))
      ((all_fine 5000 (codes "t"), omega arith), ((all_fine 6000 (codes "u"), omega arith), tt))
      (refl, (names_differ, tt), (refl, tt, tt)) later_held
