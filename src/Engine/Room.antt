-- ===== src/Engine/Room.antt =====
-- A call of `record` on an engine whose channel has room.
use tonggeret.Base.{
  ℕ, suc, ◌+◌, ◌≤◌, ◌<◌, ◌≡◌, ◌≢◌, inl, inr, refl, ap, ◌∙◌, true, false, Option, none, some, List,
  [], ◌∷◌, ◌++◌, length, length-append, All, arith, ◌>>=◌, Option-cases, lt→ltb,
}
use tonggeret.Text.{Str}
use tonggeret.Types.{
  MetricEntry, PipelineMsg, metric, Label, MetricType, new_entry, sanitize_metric_name,
}
use tonggeret.Types.Labels.{IsCuttable, sanitize_labels-returns}
use tonggeret.Channel.{Channel}
use tonggeret.Engine.{
  Registry, EngineHandle, record_entry, record_metric, update_registry, global_record, send,
}
use tonggeret.Engine.Record.{
  send-up, send-registry, has_room, record_entry-running, send-tx, send-drop,
}

module _ {F64 : Type 0} (registry : Registry F64) (channel : Channel (PipelineMsg F64)) where
  open registry use {Reg}
  open channel use {Chan, view, try_send}

  abbrev Handle : Type 0
  Handle = EngineHandle Chan Reg

  -- an engine before its shutdown, with an open channel that has room for `n` more
  pub record HasRoom (n : ℕ) (h : Handle) (c : Chan) : Type 0 where
    pub up : h.is_shutdown ≡ false
    pub tx : h.tx ≡ some c
    pub is_open : (view c).is_open ≡ true
    pub room : length (view c).queue + n ≤ (view c).capacity

  -- the updates of the registry, if there is one, by entries, one after the other
  unfoldable pub update_registries : List (MetricEntry F64) → Option Reg → Option (Option Reg)
  update_registries [] o = some o
  update_registries (e ∷ es) o = do
    o' ← update_registry registry channel e o
    update_registries es o'

  pub update_registries-two :
      (e d : MetricEntry F64) (o o1 o2 : Option Reg)
      → update_registry registry channel e o ≡ some o1
      → update_registry registry channel d o1 ≡ some o2
      → update_registries (e ∷ d ∷ []) o ≡ some o2
  unfolding update_registries
  update_registries-two e d o o1 o2 first second = rw first (rw second refl)

  pub first_update :
      (e : MetricEntry F64) (es : List (MetricEntry F64)) (o : Option Reg)
      → update_registries (e ∷ es) o ≢ none
      → (o1 : Option Reg) × (update_registry registry channel e o ≡ some o1)
        × (update_registries es o1 ≢ none)
  unfolding update_registries
  first_update e es o takes = elim (Option-cases (update_registry registry channel e o)) [
    | inl panics ↦ absurd (takes (rw panics refl))
    | inr (o1, first) ↦ (o1, first, λ panics. takes (rw first panics))
  ]

  pub two_updates :
      (e d : MetricEntry F64) (o : Option Reg)
      → update_registries (e ∷ d ∷ []) o ≢ none
      → (o1 o2 : Option Reg) × (update_registry registry channel e o ≡ some o1)
        × (update_registry registry channel d o1 ≡ some o2)
  two_updates e d o takes =
      let (o1, first, rest) = first_update e (d ∷ []) o takes in
      let (o2, second, last) = first_update d [] o1 rest in (o1, o2, first, second)

  -- what an entry that is recorded leaves
  pub record Recorded (n : ℕ) (e : MetricEntry F64) (reg : Option Reg) (h : Handle) (c : Chan)
      (h' : Handle) (c' : Chan) : Type 0 where
    pub ready : HasRoom n h' c'
    pub queue : (view c').queue ≡ (view c).queue ++ metric e ∷ []
    pub dropped : h'.dropped_total ≡ h.dropped_total
    pub updated : h'.registry ≡ reg

  finds_room :
      (n : ℕ) (h : Handle) (c : Chan)
      → HasRoom (suc n) h c
      → has_room registry channel (view c) ≡ true
  finds_room n h c k =
      let opened = k.is_open in
      let place : length (view c).queue < (view c).capacity = omega (arith, k.room) in
      rw (opened, lt→ltb _ _ place)

  view-sent :
      (e : MetricEntry F64) (c : Chan)
      → has_room registry channel (view c) ≡ true
      → view (try_send (metric e) c).1 ≡ record (view c) { queue = (view c).queue ++ metric e ∷ [] }
  view-sent e c room = channel.view-send (metric e) c ∙ ground arith

  one_more :
      (q : List (PipelineMsg F64)) (m : PipelineMsg F64) → length (q ++ m ∷ []) ≡ length q + 1
  one_more q m = length-append q (m ∷ [])

  record_entry-Recorded :
      (e : MetricEntry F64) (reg : Option Reg) (n : ℕ) (h : Handle) (c : Chan)
      → update_registry registry channel e h.registry ≡ some reg
      → HasRoom (suc n) h c
      → (h' : Handle) × (record_entry registry channel e h ≡ some h')
        × Recorded n e reg h c h' (try_send (metric e) c).1
  record_entry-Recorded e reg n h c updated k =
      let h1 : Handle = record h { registry = reg } in
      let room = finds_room n h c k in
      let after = view-sent e c room in
      (
        send registry channel e (some c) h1,
        record_entry-running registry channel e h reg k.up updated
            ∙ ap (λ t. some (send registry channel e t h1)) k.tx,
        record {
          ready = record {
            up = send-up registry channel e c h1 ∙ k.up;
            tx = send-tx registry channel e c h1;
            is_open = ap (λ v. v.is_open) after ∙ k.is_open;
            room = rw after (omega (arith, k.room, one_more (view c).queue (metric e)));
          };
          queue = ap (λ v. v.queue) after;
          dropped = send-drop registry channel e c h1 ∙ rw room refl;
          updated = send-registry registry channel e c h1 ∙ rw room refl;
        },
      )

  -- an entry with labels that can be cut is made
  pub new_entry-returns :
      (now : Option ℕ) (name : Str) (value : F64) (kind : MetricType) (labels : List Label)
      → All IsCuttable labels
      → (e : MetricEntry F64) × (new_entry now name value kind labels ≡ some e)
  unfolding new_entry
  new_entry-returns now name value kind labels cuttable =
      let (clean, cleaned, _) = sanitize_labels-returns labels cuttable in
      (
        record {
          timestamp = now;
          name = sanitize_metric_name name;
          value = value;
          metric_type = kind;
          labels = clean;
        },
        rw cleaned refl,
      )

  pub record_metric-Recorded :
      (kind : MetricType) (now : Option ℕ) (name : Str) (value : F64) (labels : List Label)
      (e : MetricEntry F64) (reg : Option Reg) (n : ℕ) (h : Handle) (c : Chan)
      → new_entry now name value kind labels ≡ some e
      → update_registry registry channel e h.registry ≡ some reg
      → HasRoom (suc n) h c
      → (h' : Handle) × (record_metric registry channel kind now name value labels (some h)
          ≡ some (some h'))
        × Recorded n e reg h c h' (try_send (metric e) c).1
  unfolding record_metric global_record
  record_metric-Recorded kind now name value labels e reg n h c made updated k =
      let (h', recorded, r) = record_entry-Recorded e reg n h c updated k in
      (h', rw made (rw recorded refl), r)
