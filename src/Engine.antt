-- ===== src/Engine.antt =====
-- engine.rs, the handle and the hot path: `EngineHandle` and `record`. A panic is `none`.
pub mod Record
pub mod Room
pub mod Pipeline
pub mod Lifecycle
use tonggeret.Base.{
  ℕ, ◌+◌, ◌%◌, ◌^◌, ◌≡◌, refl, Bool, true, false, Option, none, some, List, [], ◌∷◌, if◌then◌else◌,
  ◌>>=◌, codes,
}
use tonggeret.Text.{Str}
use tonggeret.Error.{Result, ok, err, not_initialized}
use tonggeret.Types.{MetricEntry, PipelineMsg, metric, MetricType, Label, new_entry}
use tonggeret.Channel.{Channel, Sent, sent, full, closed}

-- What the engine asks of its Prometheus registry, which `Prometheus` implements: an update may
-- panic.
pub record Registry (F64 : Type 0) : Type 1 where
  pub Reg : Type 0
  pub update : MetricEntry F64 → Reg → Option Reg
  pub inc_dropped : Reg → Reg
  pub gather_text : Reg → Result Str

-- `EngineHandle`, with the flag `SHUTDOWN`. A writer is attached if `has_fjall`.
pub record EngineHandle (Chan Reg : Type 0) : Type 0 where
  pub tx : Option Chan
  pub registry : Option Reg
  pub dropped_total : ℕ
  pub has_fjall : Bool
  pub is_shutdown : Bool

module _ {F64 : Type 0} (registry : Registry F64) (channel : Channel (PipelineMsg F64)) where
  open registry use {Reg, update, inc_dropped}
  open channel use {Chan, try_send}

  -- `if let Some(reg) = &self.registry { reg.update(&entry) }`
  unfoldable pub update_registry : MetricEntry F64 → Option Reg → Option (Option Reg)
  update_registry e none = some none
  update_registry e (some r) = do r' ← update e r; some (some r')

  abbrev pub count_drop : Option Reg → Option Reg
  count_drop none = none
  count_drop (some r) = some (inc_dropped r)

  -- `fetch_add(1)` on the `u64`, and `inc_dropped` on the registry
  unfoldable pub drop_sample : EngineHandle Chan Reg → EngineHandle Chan Reg
  drop_sample h = record h {
    dropped_total = (h.dropped_total + 1) % 2 ^ 64;
    registry = count_drop h.registry;
  }

  -- what follows a `try_send`
  unfoldable pub after_send : Sent → EngineHandle Chan Reg → EngineHandle Chan Reg
  unfolding drop_sample
  after_send sent h = h
  after_send _ h = drop_sample h

  unfoldable pub send :
      MetricEntry F64 → Option Chan → EngineHandle Chan Reg → EngineHandle Chan Reg
  unfolding after_send
  send e none h = h
  send e (some c) h =
      let (outcome, c') = try_send (metric e) c in after_send outcome (record h { tx = some c' })

  -- `EngineHandle::record`
  unfoldable pub record_entry :
      MetricEntry F64 → EngineHandle Chan Reg → Option (EngineHandle Chan Reg)
  record_entry e h =
      if h.is_shutdown
      then some h
      else do reg ← update_registry e h.registry; some (send e h.tx (record h { registry = reg }))

  -- `global_record`: nothing happens before `init`
  unfoldable pub global_record :
      MetricEntry F64 → Option (EngineHandle Chan Reg) → Option (Option (EngineHandle Chan Reg))
  global_record e none = some none
  global_record e (some h) = do h' ← record_entry e h; some (some h')

  -- `record_counter`, `record_gauge` and `record_histogram`, by their metric type, at time `now`
  unfoldable pub record_metric :
      MetricType
      → Option ℕ
      → Str
      → F64
      → List Label
      → Option (EngineHandle Chan Reg)
      → Option (Option (EngineHandle Chan Reg))
  record_metric kind now name value labels g = do
    e ← new_entry now name value kind labels
    global_record e g

  -- `dropped_count`
  unfoldable pub dropped_count : EngineHandle Chan Reg → ℕ
  dropped_count h = h.dropped_total

  -- `has_prometheus`
  unfoldable pub has_prometheus : EngineHandle Chan Reg → Bool
  has_prometheus h = elim h.registry [ some r ↦ true | none ↦ false ]

  -- `prometheus_text`, of the handle
  unfoldable pub handle_text : EngineHandle Chan Reg → Result Str
  handle_text h = elim h.registry [ some r ↦ registry.gather_text r | none ↦ ok [] ]

  -- `prometheus_text`, of the global handle
  unfoldable pub prometheus_text : Option (EngineHandle Chan Reg) → Result Str
  unfolding handle_text
  prometheus_text none = err not_initialized
  prometheus_text (some h) = handle_text h
