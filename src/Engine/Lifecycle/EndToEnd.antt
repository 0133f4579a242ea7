-- ===== src/Engine/Lifecycle/EndToEnd.antt =====
-- From the first `init` to the end of `shutdown`.
use mathlib.Core.Path.{subst}
use tonggeret.Base.{
  ℕ, ◌+◌, ◌*◌, ◌^◌, ◌≤◌, ◌≡◌, ◌≢◌, sym, ap, ◌∙◌, true, false, none, some, List, [], length, All,
  arith,
}
use tonggeret.Text.Utf8.{Bytes}
use tonggeret.Error.{Result, ok}
use tonggeret.Types.{PipelineMsg, metric}
use tonggeret.Config.{Config, FjallConfig, validate}
use tonggeret.Channel.{Channel}
use tonggeret.Storage.Json.{Json}
use tonggeret.Storage.Partition.{Partition}
use tonggeret.Storage.Writer.Stored.{IsNamed}
use tonggeret.Engine.{Registry}
use tonggeret.Engine.Pipeline.{Accepted}
use tonggeret.Engine.Lifecycle.{Env, State}
use tonggeret.Engine.Lifecycle.Close.{shut_down}
use tonggeret.Engine.Lifecycle.Steps.{run_writer-Shrinks}
use tonggeret.Engine.Lifecycle.Deliver.{Serving}
use tonggeret.Engine.Lifecycle.Start.{init-Serving, capacity_least}
use tonggeret.Engine.Lifecycle.Readable.{IsReadable, shut_down-IsReadable}
use tonggeret.Engine.Lifecycle.Reach.{
  Reach, begun, records, writes, Serves, some_tx, fits, at_globals, records-Serving, writes-Serving,
}

module _ {F64 : Type 0} (json : Json F64) (partition : Partition) (registry : Registry F64)
    (channel : Channel (PipelineMsg F64)) (new_registry : List F64 → Result registry.Reg) where
  open channel use {Chan, view, try_send}
  open partition use {Store}
  open registry use {Reg}

  abbrev P : Type 0
  P = State json partition registry channel new_registry

  module _ (env : Env Store) (c : Config F64) (f : FjallConfig) (s0 : Store) (reg : Reg)
      (valid : validate true c ≡ ok tt) (stored : c.fjall ≡ some f)
      (opens : env.open_handles f ≡ ok s0)
      (made : new_registry c.default_histogram_buckets ≡ ok reg) (spawned : env.spawns ≡ true) where
    -- However calls of `record` that return and the steps of the writer thread interleave after a first
    -- `init` that succeeds, and with no pass of a compaction loop in between, the process serves.
    pub Reach-Serves :
        {p : P} {acc : Accepted F64}
        → Reach json partition registry channel new_registry env c p acc
        → Serves json partition registry channel new_registry s0 acc c.channel_capacity p
    Reach-Serves (begun done) =
        let (p', done', v) =
          init-Serving json partition registry channel new_registry env c f s0 reg valid stored
            opens made spawned in
        let least =
          capacity_least json partition registry channel new_registry env c f s0 reg valid stored
            opens made in
        subst
          (Serves json partition registry channel new_registry s0 ([], false) c.channel_capacity)
          (ap (λ x. x.1) (sym done' ∙ done))
          (record {
            handle = _;
            chan = channel.create c.channel_capacity;
            thread = _;
            serving = v;
            capacity_is = ap (λ x. x.capacity) (channel.view-create c.channel_capacity least);
          })
    Reach-Serves (records {p = p} {acc = acc} e h h' ch r there attached done) =
        let k = Reach-Serves r in
        let (v, same) =
          at_globals json partition registry channel new_registry s0 acc p k.handle h k.chan ch
            k.thread k.serving there attached in
        record {
          handle = h';
          chan = (try_send (metric e) ch).1;
          thread = k.thread;
          serving =
              records-Serving json partition registry channel new_registry s0 acc p e h h' ch
                k.thread v done;
          capacity_is =
              (fits json partition registry channel new_registry (metric e) ch v.most).0
              ∙ ap (λ x. (view x).capacity) (sym same)
              ∙ k.capacity_is;
        }
    Reach-Serves (writes {p = p} {acc = acc} n h ch t r there attached run) =
        let k = Reach-Serves r in
        let (v, same) =
          at_globals json partition registry channel new_registry s0 acc p k.handle h k.chan ch
            k.thread k.serving there attached in
        let same_thread : k.thread ≡ t =
          some_tx json partition registry channel new_registry v.thread run in
        let v' =
          subst (λ x. Serving json partition registry channel new_registry s0 acc h ch x p)
            same_thread v in
        record {
          handle = _;
          chan = _;
          thread = _;
          serving =
              writes-Serving json partition registry channel new_registry n s0 acc p h ch t v';
          capacity_is =
              (run_writer-Shrinks json partition registry channel t.batch_rows n v'.run
                v'.before).capacity
              ∙ ap (λ x. (view x).capacity) (sym same)
              ∙ k.capacity_is;
        }

    -- After a first `init` that succeeds, with both features and a store in which inserts succeed, and
    -- while no compaction loop is started, by `init` or later: however calls of `record` that return, of
    -- which at most 2^32 entries are accepted, with names of Unicode scalar values, and the steps of the
    -- writer thread interleave, a `shutdown` in whose first sleep the thread takes two steps or more, and
    -- then two for each place of the configured channel and one more, returns without an error, and then
    -- each accepted entry is in the store under its own key, with its payload.
    pub Reach-IsReadable :
        (inserts : (k v : Bytes) (s : Store) → partition.insert k v s ≢ none) (busy : ℕ → ℕ)
        (waits : ℕ) (p : P) (acc : Accepted F64)
        → Reach json partition registry channel new_registry env c p acc
        → p.running ≡ []
        → All IsNamed acc.0
        → length acc.0 ≤ 2 ^ 32
        → 2 ≤ busy 99
        → 2 * c.channel_capacity + 1 ≤ waits
        → (p' : P) × (shut_down json partition registry channel new_registry busy waits p
            ≡ some (ok tt, p'))
          × IsReadable json partition registry channel new_registry inserts acc.0 p'.thread
    Reach-IsReadable inserts busy waits p acc r idle named few awake enough =
        let k = Reach-Serves r in
        shut_down-IsReadable json partition registry channel new_registry inserts busy waits s0 acc
          k.handle k.chan k.thread p k.serving named few awake
          (omega (arith, k.capacity_is, enough))
