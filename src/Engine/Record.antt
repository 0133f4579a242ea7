-- ===== src/Engine/Record.antt =====
-- `record` on each of its branches.
use tonggeret.Base.{
  ◌+◌, ◌%◌, ◌^◌, ◌≡◌, Bool, true, false, Option, none, some, List, [], ◌∷◌, ◌++◌, if◌then◌else◌,
  arith, ltb, ◌&&◌, some_inj, none≢some, Bool-cases, Option-cases, inl, inr, sym, ◌∙◌, length, ap,
}
use tonggeret.Types.{MetricEntry, PipelineMsg, metric}
use tonggeret.Channel.{Channel, View}
use tonggeret.Engine.{Registry, EngineHandle, update_registry, count_drop, send, record_entry}

module _ {F64 : Type 0} (registry : Registry F64) (channel : Channel (PipelineMsg F64)) where
  open registry use {Reg}
  open channel use {Chan, view}

  abbrev Handle : Type 0
  Handle = EngineHandle Chan Reg

  -- the messages that a handle's channel holds
  abbrev pub queue_of : Option Chan → List (PipelineMsg F64)
  queue_of none = []
  queue_of (some c) = (view c).queue

  -- After shutdown `record` changes nothing.
  pub record_entry-shutdown :
      (e : MetricEntry F64) (h : Handle)
      → h.is_shutdown ≡ true
      → record_entry registry channel e h ≡ some h
  unfolding record_entry
  record_entry-shutdown e h down = rw down

  -- whether `try_send` finds the receiver there and a free place
  abbrev pub has_room : View (PipelineMsg F64) → Bool
  has_room v = v.is_open && ltb (length v.queue) v.capacity

  pub send-drop :
      (e : MetricEntry F64) (c : Chan) (h : Handle)
      → (send registry channel e (some c) h).dropped_total
        ≡ (if has_room (view c) then h.dropped_total else (h.dropped_total + 1) % 2 ^ 64)
  unfolding send
  send-drop e c h = rw (channel.send_outcome (metric e) c) (ground arith)

  pub send-registry :
      (e : MetricEntry F64) (c : Chan) (h : Handle)
      → (send registry channel e (some c) h).registry
        ≡ (if has_room (view c) then h.registry else count_drop registry channel h.registry)
  unfolding send
  send-registry e c h = rw (channel.send_outcome (metric e) c) (ground arith)

  pub send-tx :
      (e : MetricEntry F64) (c : Chan) (h : Handle)
      → (send registry channel e (some c) h).tx ≡ some (channel.try_send (metric e) c).1
  unfolding send
  send-tx e c h = ground arith

  pub send-up :
      (e : MetricEntry F64) (c : Chan) (h : Handle)
      → (send registry channel e (some c) h).is_shutdown ≡ h.is_shutdown
  unfolding send
  send-up e c h = ground arith

  pub queue-send :
      (m : PipelineMsg F64) (c : Chan)
      → (view (channel.try_send m c).1).queue
        ≡ (if has_room (view c) then (view c).queue ++ m ∷ [] else (view c).queue)
  queue-send m c = rw (channel.view-send m c) (ground arith)

  pub record_entry-running :
      (e : MetricEntry F64) (h : Handle) (reg : Option Reg)
      → h.is_shutdown ≡ false
      → update_registry registry channel e h.registry ≡ some reg
      → record_entry registry channel e h
        ≡ some (send registry channel e h.tx (record h { registry = reg }))
  unfolding record_entry
  record_entry-running e h reg up updated = rw (up, updated)

  record_entry-panics :
      (e : MetricEntry F64) (h : Handle)
      → h.is_shutdown ≡ false
      → update_registry registry channel e h.registry ≡ none
      → record_entry registry channel e h ≡ none
  unfolding record_entry
  record_entry-panics e h up panics = rw (up, panics)

  -- On a running engine with a writer, once the registry has taken the entry: if the channel is open
  -- and has room the entry is queued last, and nothing is counted; else the queue stays, and the
  -- drop is counted on the handle, as a `u64`, and on the registry.
  pub record_entry-outcome :
      (e : MetricEntry F64) (h h' : Handle) (c : Chan) (reg : Option Reg)
      → h.is_shutdown ≡ false
      → h.tx ≡ some c
      → update_registry registry channel e h.registry ≡ some reg
      → record_entry registry channel e h ≡ some h'
      → (queue_of h'.tx
          ≡ (if has_room (view c) then (view c).queue ++ metric e ∷ [] else (view c).queue))
        × (h'.dropped_total
            ≡ (if has_room (view c) then h.dropped_total else (h.dropped_total + 1) % 2 ^ 64))
        × (h'.registry ≡ (if has_room (view c) then reg else count_drop registry channel reg))
  record_entry-outcome e h h' c reg up attached updated done =
      let h1 : Handle = record h { registry = reg } in
      let at_tx : send registry channel e h.tx h1 ≡ h' =
        some_inj (sym (record_entry-running e h reg up updated) ∙ done) in
      let same : send registry channel e (some c) h1 ≡ h' =
        ap (λ t. send registry channel e t h1) (sym attached) ∙ at_tx in
      rw (← same) (rw send-tx (queue-send (metric e) c), send-drop e c h1, send-registry e c h1)

  -- What a call of `record` that returns leaves of the channel: nothing new once it sees the shutdown
  -- flag, and else one `try_send` of the entry.
  pub record_entry-tx :
      (e : MetricEntry F64) (h h' : Handle) (c : Chan)
      → h.tx ≡ some c
      → record_entry registry channel e h ≡ some h'
      → h'.tx ≡ some (if h.is_shutdown then c else (channel.try_send (metric e) c).1)
  record_entry-tx e h h' c attached done = elim (Bool-cases h.is_shutdown) [
    | inl down ↦
        rw down (ap (λ g. g.tx) (some_inj (sym done ∙ record_entry-shutdown e h down)) ∙ attached)
    | inr up ↦ elim (Option-cases (update_registry registry channel e h.registry)) [
      | inl panics ↦ absurd (none≢some (sym (record_entry-panics e h up panics) ∙ done))
      | inr (reg, updated) ↦ rw up (
          ap (λ g. g.tx) (some_inj (sym done ∙ record_entry-running e h reg up updated))
          ∙ ap (λ t. (send registry channel e t (record h { registry = reg })).tx) attached
          ∙ send-tx e c (record h { registry = reg }))
    ]
  ]

  -- a call that returns does not shut the engine down
  pub record_entry-up :
      (e : MetricEntry F64) (h h' : Handle) (c : Chan)
      → h.tx ≡ some c
      → h.is_shutdown ≡ false
      → record_entry registry channel e h ≡ some h'
      → h'.is_shutdown ≡ false
  record_entry-up e h h' c attached up done =
      elim (Option-cases (update_registry registry channel e h.registry)) [
        | inl panics ↦ absurd (none≢some (sym (record_entry-panics e h up panics) ∙ done))
        | inr (reg, updated) ↦
            ap (λ g. g.is_shutdown) (some_inj (sym done ∙ record_entry-running e h reg up updated))
            ∙ ap (λ t. (send registry channel e t (record h { registry = reg })).is_shutdown)
                attached
            ∙ send-up e c (record h { registry = reg })
            ∙ up
      ]
