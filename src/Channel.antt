-- ===== src/Channel.antt =====
-- What the crate uses of a bounded `tokio::sync::mpsc` channel, as an interface. What a channel
-- does is documented by its view: capacity, the messages not yet received, and whether the receiver
-- is there. A sender is kept in a global for the whole process, so the channel never ends for the
-- receiver: `blocking_recv` on an empty channel waits, and has no step.
use tonggeret.Base.{
  ◌≤◌, ℕ, ◌≡◌, Bool, true, false, Option, none, some, List, [], ◌∷◌, ◌++◌, ltb, if◌then◌else◌,
  length,
}

-- the outcomes of `try_send`
pub data Sent : Type 0 where
  sent full closed : Sent

pub record View {ℓ} (M : Type ℓ) : Type ℓ where
  pub capacity : ℕ
  pub queue : List M
  pub is_open : Bool

module _ {ℓ} {M : Type ℓ} where
  -- `Sender::try_send`
  abbrev pub send_view : M → View M → Sent × View M
  send_view m v =
      if v.is_open
      then if ltb (length v.queue) v.capacity
        then (sent, record v { queue = v.queue ++ m ∷ [] })
        else (full, v)
      else (closed, v)

  abbrev pub next_of : View M → List M → Option M × View M
  next_of v [] = (none, v)
  next_of v (m ∷ ms) = (some m, record v { queue = ms })

  -- `Receiver::try_recv`
  abbrev pub recv_view : View M → Option M × View M
  recv_view v = next_of v v.queue

  -- the receiver is dropped, and with it what it has not received
  abbrev pub close_view : View M → View M
  close_view v = record v { queue = []; is_open = false }

pub record Channel (M : Type 0) : Type 1 where
  pub Chan : Type 0
  pub view : Chan → View M
  -- `mpsc::channel`, which wants a capacity of at least 1
  pub create : ℕ → Chan
  pub try_send : M → Chan → Sent × Chan
  pub try_recv : Chan → Option M × Chan
  pub close : Chan → Chan
  pub send_outcome : (m : M) (c : Chan) → (try_send m c).0 ≡ (send_view m (view c)).0
  pub view-send : (m : M) (c : Chan) → view (try_send m c).1 ≡ (send_view m (view c)).1
  pub recv_outcome : (c : Chan) → (try_recv c).0 ≡ (recv_view (view c)).0
  pub view-recv : (c : Chan) → view (try_recv c).1 ≡ (recv_view (view c)).1
  pub view-close : (c : Chan) → view (close c) ≡ close_view (view c)
  pub view-create :
      (n : ℕ) → 1 ≤ n → view (create n) ≡ record { capacity = n; queue = []; is_open = true }
