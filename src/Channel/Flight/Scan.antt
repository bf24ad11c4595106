-- ===== src/Channel/Flight/Scan.antt =====
-- processInFlightQueue after its label `exit`: waiting messages move to requeuedMsgChan.
use nsq.Base.{
  ℕ, ◌≤◌, ◌<◌, ◌≡◌, ◌≢◌, ◌⊎◌, inl, inr, refl, ap, subst, ◌∙◌, arith, some, Bool, true, false, List,
  [], ◌∷◌, ◌++◌, length, length-append, ltb, ltb→lt, if◌then◌else◌, Bool-cases, ℕ_discrete,
}
use nsq.Base.Map.{Map, find, insert, erase, find-erase}
use nsq.Channel.Backend.{Backend}
use nsq.Channel.Flight.{Flight}
use nsq.Channel.Flight.Count.{IsDistinct}
use nsq.Channel.Flight.Consistent.{IsConsistent}

-- The message is in the list.
abbrev pub Queued : ℕ → List ℕ → Type 0
Queued p [] = ⊥
Queued p (q ∷ l) = (p ≡ q) ⊎ Queued p l

pub Queued-append : (p : ℕ) (l m : List ℕ) → Queued p l → Queued p (l ++ m)
Queued-append p [] m h = elim h [ ]
Queued-append p (q ∷ l) m (inl e) = inl e
Queued-append p (q ∷ l) m (inr h) = inr (Queued-append p l m h)

pub Queued-last : (p : ℕ) (l : List ℕ) → Queued p (l ++ (p ∷ []))
Queued-last p [] = inl refl
Queued-last p (q ∷ l) = inr (Queued-last p l)

module _ (backend : Backend) where
  -- One message moves to the channel.
  unfoldable pub move_waiting : ℕ → ℕ → Flight backend → Flight backend
  move_waiting k p f = record f {
    requeued_chan = f.requeued_chan ++ (p ∷ []);
    waiting_requeue = erase k f.waiting_requeue;
    waiting_requeue_chan = insert (f.cells p).id p f.waiting_requeue_chan;
  }

  -- The loop over the map, which stops where the channel has no room. The map's entries are `todo`.
  unfoldable pub requeue_loop : Map ℕ → Flight backend → Flight backend
  requeue_loop [] f = f
  requeue_loop ((k, p) ∷ todo) f =
      let rest = requeue_loop todo (move_waiting k p f) in
      if ltb (length f.requeued_chan) f.requeued_cap then rest else f

  unfoldable pub requeue_waiting : Flight backend → Flight backend
  requeue_waiting f = if f.consume_disabled then f else requeue_loop f.waiting_requeue f

  requeue_loop-IsConsistent :
      (todo : Map ℕ) (f : Flight backend)
      → IsConsistent backend f
      → IsConsistent backend (requeue_loop todo f)
  unfolding requeue_loop move_waiting
  requeue_loop-IsConsistent [] f v = v
  requeue_loop-IsConsistent ((k, p) ∷ todo) f v =
      elim (Bool-cases (ltb (length f.requeued_chan) f.requeued_cap)) [
        | inr full ↦ rw full v
        | inl free ↦ rw free (
            requeue_loop-IsConsistent todo (move_waiting k p f)
              (record { agreed = v.agreed; counted = v.counted }))
      ]

  pub requeue_waiting-IsConsistent :
      (f : Flight backend) → IsConsistent backend f → IsConsistent backend (requeue_waiting f)
  unfolding requeue_waiting
  requeue_waiting-IsConsistent f v = by_switch f.consume_disabled
    where
      by_switch :
          (b : Bool) → IsConsistent backend (if b then f else requeue_loop f.waiting_requeue f)
      by_switch true = v
      by_switch false = requeue_loop-IsConsistent f.waiting_requeue f v

  -- No message that waits is lost, none in the channel leaves it, and the channel is not overfilled.
  pub record Moved (f f' : Flight backend) : Type 0 where
    pub cells : f'.cells ≡ f.cells
    pub map : f'.in_flight_messages ≡ f.in_flight_messages
    pub queue : f'.queue ≡ f.queue
    pub cap : f'.requeued_cap ≡ f.requeued_cap
    pub waits :
        (k p : ℕ)
        → find k f.waiting_requeue ≡ some p
        → (find k f'.waiting_requeue ≡ some p) ⊎ Queued p f'.requeued_chan
    pub queued : (p : ℕ) → Queued p f.requeued_chan → Queued p f'.requeued_chan
    pub room : length f.requeued_chan ≤ f.requeued_cap → length f'.requeued_chan ≤ f'.requeued_cap

  Moved-refl : (f : Flight backend) → Moved f f
  Moved-refl f = record {
    cells = refl;
    map = refl;
    queue = refl;
    cap = refl;
    waits = λ k p e. inl e;
    queued = λ p h. h;
    room = λ h. h;
  }

  Moved-trans : {f g h : Flight backend} → Moved f g → Moved g h → Moved f h
  Moved-trans a b = record {
    cells = b.cells ∙ a.cells;
    map = b.map ∙ a.map;
    queue = b.queue ∙ a.queue;
    cap = b.cap ∙ a.cap;
    waits = λ k p e. elim (a.waits k p e) [ inl q ↦ b.waits k p q | inr q ↦ inr (b.queued p q) ];
    queued = λ p q. b.queued p (a.queued p q);
    room = λ q. b.room (a.room q);
  }

  -- The entries still to come are entries of the map.
  abbrev AreWaiting : Map ℕ → Flight backend → Type 0
  AreWaiting todo f = (k p : ℕ) → find k todo ≡ some p → find k f.waiting_requeue ≡ some p

  move_waiting-Moved :
      (k p : ℕ) (f : Flight backend)
      → find k f.waiting_requeue ≡ some p
      → length f.requeued_chan < f.requeued_cap
      → Moved f (move_waiting k p f)
  unfolding move_waiting
  move_waiting-Moved k p f e free = record {
    cells = refl;
    map = refl;
    queue = refl;
    cap = refl;
    waits = λ j q g. elim (ℕ_discrete k j) [
      | yes same ↦
          let it : p ≡ q = cc (e, g, ap (λ i. find i f.waiting_requeue) same) in
          inr
            (subst (λ x. Queued x (f.requeued_chan ++ (p ∷ []))) it (Queued-last p f.requeued_chan))
      | no other ↦ inl (ground (arith, find-erase k j f.waiting_requeue))
    ];
    queued = λ q h. Queued-append q f.requeued_chan (p ∷ []) h;
    room = λ h. rw (length-append f.requeued_chan (p ∷ [])) (omega arith);
  }

  requeue_loop-Moved :
      (todo : Map ℕ) (f : Flight backend)
      → IsDistinct todo
      → AreWaiting todo f
      → Moved f (requeue_loop todo f)
  unfolding requeue_loop move_waiting find
  requeue_loop-Moved [] f d w = Moved-refl f
  requeue_loop-Moved ((k, p) ∷ todo) f d w =
      elim (Bool-cases (ltb (length f.requeued_chan) f.requeued_cap)) [
        | inr full ↦ rw full (Moved-refl f)
        | inl free ↦
            let head : find k f.waiting_requeue ≡ some p = w k p (ground arith) in
            let still : AreWaiting todo (move_waiting k p f) = λ j q e.
              let ne : k ≢ j = λ same. absurd (cc (d.0, e, ap (λ i. find i todo) same)) in
              let listed = w j q (ground arith) in
              ground (arith, find-erase k j f.waiting_requeue) in
            rw free (
              Moved-trans
                (move_waiting-Moved k p f head
                  (ltb→lt (length f.requeued_chan) f.requeued_cap free))
                (requeue_loop-Moved todo (move_waiting k p f) d.1 still))
      ]

  -- The scan of the waiting messages loses none: each that waited still waits, or is in the channel
  -- requeuedMsgChan. What was in the channel stays, the channel is not filled beyond its capacity,
  -- and the messages in flight are not touched.
  pub requeue_waiting-Moved :
      (f : Flight backend) → IsDistinct f.waiting_requeue → Moved f (requeue_waiting f)
  unfolding requeue_waiting
  requeue_waiting-Moved f d = by_switch f.consume_disabled
    where
      by_switch : (b : Bool) → Moved f (if b then f else requeue_loop f.waiting_requeue f)
      by_switch true = Moved-refl f
      by_switch false = requeue_loop-Moved f.waiting_requeue f d (λ k p e. e)
