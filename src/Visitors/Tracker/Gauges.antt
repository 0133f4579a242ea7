-- ===== src/Visitors/Tracker/Gauges.antt =====
-- What a snapshot leaves in the engine: one gauge for each region.
use tonggeret.Base.{
  ℕ, suc, ◌≡◌, ◌≢◌, inl, inr, refl, sym, ap, ◌∙◌, false, Bool-cases, Option, none, some, List, [],
  ◌∷◌, ◌++◌, length, All, append_assoc, append-nil, if_intro, not, leb, ◌&&◌,
}
use mathlib.Core.List.{Permᴰ}
use mathlib.Core.Path.{subst}
use tonggeret.Text.{Str, str_eq}
use tonggeret.Types.{MetricEntry, PipelineMsg, metric, gauge, new_entry}
use tonggeret.Channel.{Channel}
use tonggeret.Engine.{Registry, EngineHandle}
use tonggeret.Engine.Room.{
  HasRoom, update_registries, first_update, new_entry-returns, record_metric-Recorded,
}
use tonggeret.Visitors.Region.{normalize_region}
use tonggeret.Visitors.Region.Laws.{IsRegion, IsRegion-IsAscii, normalize_region-IsRegion}
use tonggeret.Visitors.Hll.{Hll, add, estimate, Floats}
use tonggeret.Visitors.Tracker.{
  Sketches, Tracker, new_tracker, change, contains_key, bucket_of, fold_visit, export_gauges,
  snapshot, region_label, unique_visitors_estimate,
}
use tonggeret.Visitors.Tracker.Sketches.{fold_visits}

-- every key is two capital letters, `other` or `unknown`
abbrev HasRegions : Sketches → Type 0
HasRegions m = All (λ x. IsRegion x.0) m

change-HasRegions :
    (bucket : Str) (f : Hll → Hll) (m : Sketches)
    → IsRegion bucket
    → HasRegions m
    → HasRegions (change bucket f m)
unfolding change
change-HasRegions bucket f [] b h = (b, tt)
change-HasRegions bucket f ((r, s) ∷ m) b (region, others) = elim (Bool-cases (str_eq r bucket)) [
  | inl same ↦ rw same ((region, others))
  | inr differs ↦ rw differs ((region, change-HasRegions bucket f m b others))
]

bucket_of-IsRegion : (region : Str) (t : Tracker) → IsRegion region → IsRegion (bucket_of region t)
unfolding bucket_of
bucket_of-IsRegion region t h =
    if_intro IsRegion (not (contains_key region t.inner) && leb t.max_regions (length t.inner))
      (inr (inl refl)) h

fold_visits-HasRegions :
    {Key : Type 0} (hash_key : Key → ℕ) (visits : List (Key × Str)) (t : Tracker)
    → HasRegions t.inner
    → HasRegions (fold_visits hash_key visits t).inner
unfolding fold_visits fold_visit
fold_visits-HasRegions hash_key [] t h = h
fold_visits-HasRegions hash_key ((visitor, raw) ∷ visits) t h =
    fold_visits-HasRegions hash_key visits _ (
      change-HasRegions _ (add hash_key visitor) t.inner
        (bucket_of-IsRegion (normalize_region raw) t (normalize_region-IsRegion raw)) h)

-- an order of the same regions
Permᴰ-HasRegions : {m m' : Sketches} → Permᴰ m m' → HasRegions m' → HasRegions m
Permᴰ-HasRegions Permᴰ.nil h = tt
Permᴰ-HasRegions (Permᴰ.cons e d) (region, h) =
    (subst (λ x. IsRegion x.0) (sym e) region, Permᴰ-HasRegions d h)
Permᴰ-HasRegions (Permᴰ.swap e₁ e₂) (one, (two, h)) =
    (subst (λ x. IsRegion x.0) (sym e₁) two, (subst (λ x. IsRegion x.0) (sym e₂) one, h))
Permᴰ-HasRegions (Permᴰ.trans d₁ d₂) h = Permᴰ-HasRegions d₁ (Permᴰ-HasRegions d₂ h)

Permᴰ-length : {A : Type 0} {xs ys : List A} → Permᴰ xs ys → length xs ≡ length ys
Permᴰ-length Permᴰ.nil = refl
Permᴰ-length (Permᴰ.cons e d) = ap suc (Permᴰ-length d)
Permᴰ-length (Permᴰ.swap e₁ e₂) = refl
Permᴰ-length (Permᴰ.trans d₁ d₂) = Permᴰ-length d₁ ∙ Permᴰ-length d₂

module _ (floats : Floats) (registry : Registry floats.F64)
    (channel : Channel (PipelineMsg floats.F64)) (hash_key : Str → ℕ) where
  open floats use {F64, of_ℕ}
  open channel use {Chan, view}
  open registry use {Reg}

  -- one entry for each region, in the order given: its gauge, with the estimate of its sketch
  abbrev pub AreGauges : (Str → Option ℕ) → Sketches → List (MetricEntry F64) → Type 0
  AreGauges clock [] [] = Unit
  AreGauges clock [] (e ∷ es) = ⊥
  AreGauges clock (x ∷ m) [] = ⊥
  AreGauges clock ((r, s) ∷ m) (e ∷ es) =
      (new_entry (clock r) unique_visitors_estimate (of_ℕ (estimate floats s)) gauge
          (region_label floats registry channel hash_key r)
        ≡ some e)
      × AreGauges clock m es

  abbrev pub messages : List (MetricEntry F64) → List (PipelineMsg F64)
  messages [] = []
  messages (e ∷ es) = metric e ∷ messages es

  -- what the export of some regions leaves
  pub record Exported (clock : Str → Option ℕ) (m : Sketches) (h : EngineHandle Chan Reg) (c : Chan)
      (h' : EngineHandle Chan Reg) : Type 0 where
    pub chan : Chan
    pub attached : h'.tx ≡ some chan
    pub gauges : List (MetricEntry F64)
    pub made : AreGauges clock m gauges
    pub updated : update_registries registry channel gauges h.registry ≡ some h'.registry
    pub queue : (view chan).queue ≡ (view c).queue ++ messages gauges
    pub dropped : h'.dropped_total ≡ h.dropped_total

  -- the gauges of the regions are made
  gauges_made :
      (clock : Str → Option ℕ) (m : Sketches)
      → HasRegions m
      → (es : List (MetricEntry F64)) × AreGauges clock m es
  gauges_made clock [] regions = ([], tt)
  gauges_made clock ((r, s) ∷ m) (region, regions) =
      let (e, made) =
        new_entry-returns registry channel (clock r) unique_visitors_estimate
          (of_ℕ (estimate floats s)) gauge (region_label floats registry channel hash_key r)
          (inl (IsRegion-IsAscii r region), tt) in
      let (es, others) = gauges_made clock m regions in (e ∷ es, (made, others))

  export_gauges-Exported :
      (clock : Str → Option ℕ) (m : Sketches) (es : List (MetricEntry F64))
      (h : EngineHandle Chan Reg) (c : Chan)
      → AreGauges clock m es
      → update_registries registry channel es h.registry ≢ none
      → HasRoom registry channel (length m) h c
      → (h' : EngineHandle Chan Reg) × (export_gauges floats registry channel hash_key clock m
            (some h)
          ≡ some (some h'))
        × Exported clock m h c h'
  unfolding export_gauges update_registries
  export_gauges-Exported clock [] [] h c made takes k = (
    h,
    refl,
    record {
      chan = c;
      attached = k.tx;
      gauges = [];
      made = tt;
      updated = refl;
      queue = sym (append-nil (view c).queue);
      dropped = refl;
    },
  )
  export_gauges-Exported clock [] (e ∷ es) h c made takes k = absurd made
  export_gauges-Exported clock (x ∷ m) [] h c made takes k = absurd made
  export_gauges-Exported clock ((r, s) ∷ m) (e ∷ es) h c (made, all_made) takes k =
      let (reg, updated, rest) = first_update registry channel e es h.registry takes in
      let (h1, recorded, first) =
        record_metric-Recorded registry channel gauge (clock r) unique_visitors_estimate
          (of_ℕ (estimate floats s)) (region_label floats registry channel hash_key r) e reg
          (length m) h c made updated k in
      let (h', exported, others) =
        export_gauges-Exported clock m es h1 (channel.try_send (metric e) c).1 all_made
          (λ panics. rest (ap (update_registries registry channel es) (sym first.updated) ∙ panics))
          first.ready in
      (
        h',
        rw recorded exported,
        record {
          chan = others.chan;
          attached = others.attached;
          gauges = e ∷ others.gauges;
          made = (made, others.made);
          updated = rw updated (
              ap (update_registries registry channel others.gauges) (sym first.updated)
              ∙ others.updated);
          queue =
              others.queue
              ∙ ap (λ q. q ++ messages others.gauges) first.queue
              ∙ append_assoc (view c).queue (metric e ∷ []) (messages others.gauges);
          dropped = others.dropped ∙ first.dropped;
        },
      )

  -- On a tracker after any visits, whose lock is free and whose map is iterated in any order, and an
  -- engine before its shutdown, whose channel is open and has a free place for each region of the
  -- tracker: if the registry, if there is one, takes the updates by the gauges of these regions, one
  -- after the other, without a panic, `snapshot` returns the number of the regions, and leaves, in the
  -- registry and at the end of the queue, in the order of the iteration, one gauge for each region, with
  -- its label and the estimate of its sketch; no drop is counted.
  pub snapshot-Exported :
      (order : Sketches → Sketches) (clock : Str → Option ℕ) (most : ℕ) (visits : List (Str × Str))
      (h : EngineHandle Chan Reg) (c : Chan)
      → ((m : Sketches) → Permᴰ (order m) m)
      → HasRoom registry channel (length (fold_visits hash_key visits (new_tracker most)).inner) h c
      → ((gauges : List (MetricEntry F64))
          → AreGauges clock (order (fold_visits hash_key visits (new_tracker most)).inner) gauges
          → update_registries registry channel gauges h.registry ≢ none)
      → (h' : EngineHandle Chan Reg) × (snapshot floats registry channel hash_key false order clock
            (fold_visits hash_key visits (new_tracker most))
            (some h)
          ≡ some (length (fold_visits hash_key visits (new_tracker most)).inner, some h'))
        × Exported clock (order (fold_visits hash_key visits (new_tracker most)).inner) h c h'
  unfolding snapshot
  snapshot-Exported order clock most visits h c permutes k takes =
      let t = fold_visits hash_key visits (new_tracker most) in
      let regions =
        Permᴰ-HasRegions (permutes t.inner)
          (fold_visits-HasRegions hash_key visits (new_tracker most) (unfold new_tracker in tt)) in
      let (es, made) = gauges_made clock (order t.inner) regions in
      let (h', exported, e) =
        export_gauges-Exported clock (order t.inner) es h c made (takes es made)
          (subst (λ n. HasRoom registry channel n h c) (sym (Permᴰ-length (permutes t.inner))) k) in
      (h', rw exported refl, e)
