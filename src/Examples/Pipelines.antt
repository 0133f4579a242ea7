-- ===== src/Examples/Pipelines.antt =====
-- The pipeline and the payload at concrete inputs.
use tonggeret.Base.{ℕ, ◌≡◌, refl, true, some, [], ◌∷◌, arith}
use tonggeret.Types.{PipelineMsg, metric, shutdown, as_str}
use tonggeret.Channel.{View}
use tonggeret.Storage.Values.{
  decode_value, encode_value, unwrap_or, labels_value, decode_value-encode_value,
}
use tonggeret.Storage.Writer.{exited, flush_batch, Writer, writer_step, started}
use tonggeret.Engine.Pipeline.{Run, begin, recorded, asked, stepped, Accepted}
use tonggeret.Engine.Pipeline.Accounts.{exited-stored}
use tonggeret.Engine.Pipeline.Drain.{run_writer, run_writer-exited}
use tonggeret.Examples.Values.{json, print}
use tonggeret.Examples.Stores.{partition, Items}
use tonggeret.Examples.Small.{
  registry, channel, sample, handle, handle_after, room_for_two, records,
}

decode_value-encode_value_example : decode_value json 0 (encode_value json sample) ≡ (
  unwrap_or 0 (some sample.value),
  as_str sample.metric_type,
  print (labels_value json sample.labels),
)
decode_value-encode_value_example = decode_value-encode_value json 0 sample

-- the channel with an observation, and then with the shutdown message
abbrev one_waits : View (PipelineMsg ℕ)
one_waits = record room_for_two { queue = metric sample ∷ [] }

abbrev both_wait : View (PipelineMsg ℕ)
both_wait = record room_for_two { queue = metric sample ∷ shutdown ∷ [] }

abbrev accepted : Accepted ℕ
accepted = (sample ∷ [], true)

sent_both : Run json partition registry channel 8 [] (started []) both_wait accepted
sent_both = asked (recorded sample handle handle_after (begin room_for_two refl) refl records refl)

abbrev awake : Writer ℕ Items × View (PipelineMsg ℕ)
awake = writer_step json partition channel 8 (started []) both_wait

abbrev done : Writer ℕ Items × View (PipelineMsg ℕ)
done = writer_step json partition channel 8 awake.0 awake.1

done_at : done.0.phase ≡ exited
unfolding writer_step
done_at = refl

exited-stored_example :
    (true ≡ true)
    × (flush_batch json partition (sample ∷ []) ([], 0) ≡ (done.0.store, done.0.seq))
    × (done.0.persisted ≡ true)
exited-stored_example =
    exited-stored json partition registry channel 8 (stepped (stepped sent_both)) done_at

run_writer-exited_example :
    (run_writer json partition registry channel 8 5 (started []) both_wait).0.phase ≡ exited
run_writer-exited_example =
    run_writer-exited json partition registry channel 8 5 (started []) both_wait refl (omega arith)
