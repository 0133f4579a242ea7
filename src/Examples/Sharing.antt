-- ===== src/Examples/Sharing.antt =====
-- A pass and a writer thread that share a store, and sets of visitors, at concrete inputs.
use tonggeret.Base.{
  ◌≡◌, refl, inr, true, false, Option, none, some, List, [], ◌∷◌, ◌++◌, codes, arith,
}
use tonggeret.Text.{str_eq}
use tonggeret.Text.Utf8.{Bytes}
use tonggeret.Storage.Keys.{encode_key, cutoff_prefix, lex_ltb}
use tonggeret.Storage.Export.{cutoff_micros}
use tonggeret.Storage.Export.Stores.{Keys}
use tonggeret.Storage.Values.{entry_micros, encode_value}
use tonggeret.Storage.Writer.{flush_batch}
use tonggeret.Storage.Shared.{
  StoreOp, put, Interleaves, done, left, right, drops, run_ops, writer_ops, removals_of,
}
use tonggeret.Storage.Shared.Recent.{get-interleaved}
use tonggeret.Visitors.Hll.{new, add_all}
use tonggeret.Visitors.Hll.Sets.{SameVisitors, add_all-SameVisitors}
use tonggeret.Examples.Values.{json}
use tonggeret.Examples.Stores.{partition, inserts}
use tonggeret.Examples.Passes.{store, fine}
use tonggeret.Examples.Small.{sample}

-- all of one sequence, then the other
one_then_other : (xs ys : List StoreOp) → Interleaves xs ys (xs ++ ys)
one_then_other [] [] = done
one_then_other [] (y ∷ ys) = right y (one_then_other [] ys)
one_then_other (x ∷ xs) ys = left x (one_then_other xs ys)

-- the key of the second entry of a batch that begins with the number 7
abbrev new_key : Bytes
new_key = encode_key (entry_micros sample) 8 (codes "up")

-- what the scan gives: an old key, and an item that fails to be read
abbrev old_key : Bytes
old_key = encode_key 1000 3 (codes "up")

abbrev items : List (Option (Bytes × Bytes))
items = some (old_key, encode_value json sample) ∷ none ∷ []

is_old : Keys (λ j. lex_ltb j (cutoff_prefix (cutoff_micros 5000 1000)) ≡ true) items
unfolding encode_key cutoff_prefix cutoff_micros lex_ltb tonggeret.Text.Utf8.utf8
    tonggeret.Text.Hex.hex
is_old = (refl, tt)

is_other : Keys (λ j. str_eq j new_key ≡ false) items
unfolding encode_key str_eq tonggeret.Text.Utf8.utf8 tonggeret.Text.Hex.hex entry_micros
is_other = (refl, tt)

abbrev removals : List StoreOp
removals = drops (removals_of json 0 fine items [])

-- the first insert, then the removals, then the second insert
abbrev second : List StoreOp
second = put new_key (encode_value json sample) ∷ []

abbrev in_turn : List StoreOp
in_turn =
    put (encode_key (entry_micros sample) 7 (codes "up")) (encode_value json sample)
    ∷ (removals ++ second)

takes_turns : Interleaves removals (writer_ops json partition (sample ∷ sample ∷ []) 7) in_turn
unfolding writer_ops
takes_turns = right _ (one_then_other removals second)

get-interleaved_example :
    partition.get new_key (run_ops json partition in_turn store)
    ≡ partition.get new_key (flush_batch json partition (sample ∷ sample ∷ []) (store, 7)).0
get-interleaved_example =
    get-interleaved json partition 0 fine inserts 5000 1000 items [] store (sample ∷ sample ∷ []) 7
      in_turn new_key is_old (inr is_other) takes_turns

two_visits : SameVisitors (5 ∷ 9 ∷ 5 ∷ []) (9 ∷ 5 ∷ [])
two_visits a = ground arith

add_all-SameVisitors_example : add_all (5 ∷ 9 ∷ 5 ∷ []) new ≡ add_all (9 ∷ 5 ∷ []) new
add_all-SameVisitors_example = add_all-SameVisitors (5 ∷ 9 ∷ 5 ∷ []) (9 ∷ 5 ∷ []) new two_visits
