-- ===== src/Examples/Exports.antt =====
-- From the first `init` to a row of a cold file, at a concrete input.
use tonggeret.Base.{◌≡◌, refl, some, false, [], ◌∷◌, arith}
use tonggeret.Error.{ok}
use tonggeret.Config.{new_fjall, default_full}
use tonggeret.Engine.Lifecycle.{State}
use tonggeret.Engine.Lifecycle.Close.{shut_down}
use tonggeret.Engine.Lifecycle.Exported.{KeepsAll, Reach-KeepsAll}
use tonggeret.Examples.Values.{json}
use tonggeret.Examples.Stores.{partition, below_read, inserts, removes}
use tonggeret.Examples.Passes.{fine}
use tonggeret.Examples.Small.{registry, channel, sample}
use tonggeret.Examples.Lifecycles.{
  dir, config, outside, none_running, new_registry, running, reached, valid, stored,
}

Reach-KeepsAll_example :
    (p' : State json partition registry channel new_registry) × (shut_down json partition registry
        channel new_registry
        (λ n. 2)
        40000
        running
      ≡ some (ok tt, p'))
    × KeepsAll json partition registry channel new_registry 0 fine refl
        (λ n. refl)
        refl
        refl
        refl
        inserts
        removes
        (λ bound s. below_read bound s s)
        5000
        1000
        []
        sample
        0
        p'.thread
unfolding default_full tonggeret.Storage.Export.cutoff_micros
Reach-KeepsAll_example =
    Reach-KeepsAll json partition registry channel new_registry 0 fine refl (λ n. refl) refl refl
      refl inserts removes (λ bound s. below_read bound s s) outside config (new_fjall dir) [] 0
      valid stored refl refl refl (λ n. 2) 40000 running (sample ∷ [], false) 5000 1000 [] [] sample
      [] reached none_running refl ((refl, (refl, tt)), tt) (omega arith) (omega arith)
      (omega arith) (omega arith)
