-- ===== src/PcQueue/Links.antt =====
-- A queue of test/pcqueue.cpp between the thread that fills it and the one that empties it.
use icsa_dswp.Prelude.{
  ℕ, zero, suc, ◌+◌, ◌<◌, ◌≤◌, ◌≡◌, refl, sym, ap, ◌∙◌, subst, true, false, inl, inr, List, [], ◌∷◌,
  ◌++◌, arith, Bool-cases, not_both,
}
use icsa_dswp.PcQueue.{
  PcQueue, new_queue, produce, Turn, moved, Consumer, at_test, in_wait, holding, pop, begin_consume,
  end_consume,
}
use icsa_dswp.PcQueue.Places.{taken, sent, weight, is_waiting, IsSound, Goes}

-- `g from`, `g (from + 1)` and so on
abbrev pub values : (ℕ → ℕ) → (from count : ℕ) → List ℕ
values g from zero = []
values g from (suc count) = g from ∷ values g (suc from) count

values_end :
    (g : ℕ → ℕ) (from count : ℕ)
    → values g from count ++ (g (from + count) ∷ []) ≡ values g from (suc count)
values_end g from zero = ap (λ k. g k ∷ []) (omega arith)
values_end g from (suc count) =
    ap (λ l. g from ∷ l)
      (ap (λ k. values g (suc from) count ++ (g k ∷ [])) (omega arith)
        ∙ values_end g (suc from) count)

-- The queue holds the values in order, from the first one that the consumer has not taken to the
-- last one that was sent. The consumer sleeps only on an empty queue, and is awake in the wait
-- only if there is something to take.
pub record Link (n : ℕ) (g : ℕ → ℕ) (made : ℕ) (q : PcQueue) (c : Consumer) : Type 0 where
  pub count : ℕ
  pub held : q.elements ≡ values g (taken n c) count
  pub total : made ≡ taken n c + count
  pub sound : IsSound n g c
  pub awake : q.asleep ≡ false → is_waiting c ≡ true → 0 < count
  pub sleeps : q.asleep ≡ true → (is_waiting c ≡ true) × (count ≡ 0)

module _ (n : ℕ) (g : ℕ → ℕ) where
  pub produce-Link :
      (made element : ℕ) (q : PcQueue) (c : Consumer)
      → element ≡ g made
      → Link n g made q c
      → Link n g (suc made) (produce element q) c
  unfolding produce
  produce-Link made element q c e l = record {
    count = suc l.count;
    held =
        ap (λ l. l ++ (element ∷ [])) l.held
        ∙ ap (λ v. values g (taken n c) l.count ++ (v ∷ [])) (e ∙ ap g l.total)
        ∙ values_end g (taken n c) l.count;
    total = omega (arith, l.total);
    sound = l.sound;
    awake = λ a w. omega arith;
    sleeps = λ a. absurd (not_both a refl);
  }

  -- Taking an element, or going to sleep, keeps the link.
  abbrev pub Takes : (made : ℕ) (from : Consumer) → Turn (Consumer × PcQueue) → Type 0
  Takes made from t =
      (c : Consumer) × (q : PcQueue) × (t ≡ moved (c, q)) × Link n g made q c × Goes n from c

  -- The front that a consumer takes is the value of its round.
  pop-Link :
      (made i : ℕ) (from : Consumer) (q : PcQueue) (count : ℕ)
      → q.elements ≡ values g i count
      → made ≡ i + count
      → i < n
      → q.asleep ≡ false
      → 0 < count
      → sent n from ≡ i
      → weight n (in_wait i) ≤ weight n from
      → Takes made from (pop i q)
  unfolding pop
  pop-Link made i from q zero held total b a pos p w = absurd (omega (arith, pos))
  pop-Link made i from q (suc count) held total b a pos p w =
      let goes : Goes n from (holding i (g i)) = record {
        sent_same = sym p;
        idle = refl;
        looping = refl;
        running = refl;
        fewer = omega (arith, w);
      } in
      (
        holding i (g i),
        record q { elements = values g (suc i) count },
        rw held,
        record {
          count = count;
          held = refl;
          total = omega (arith, total);
          sound = (b, refl);
          awake = λ p w. absurd (not_both w refl);
          sleeps = λ p. absurd (not_both p a);
        },
        goes,
      )

  pub begin_consume-Link :
      (made i : ℕ) (q : PcQueue)
      → Link n g made q (at_test i)
      → i < n
      → Takes made (at_test i) (begin_consume i q)
  unfolding begin_consume pop
  begin_consume-Link made i q l b = elim (Bool-cases q.asleep) [
    | inl asleep ↦ absurd (not_both (l.sleeps asleep).0 refl)
    | inr up ↦ from_count l.count l.held l.total up
  ]
    where
      shut : {e : ℕ} {es : List ℕ} → q.elements ≡ e ∷ es → begin_consume i q ≡ pop i q
      shut {e} {es} h = rw h

      from_count :
          (count : ℕ)
          → q.elements ≡ values g i count
          → made ≡ i + count
          → q.asleep ≡ false
          → Takes made (at_test i) (begin_consume i q)
      from_count zero held total up = (
        in_wait i,
        record q { asleep = true },
        rw held,
        record {
          count = 0;
          held = held;
          total = total;
          sound = b;
          awake = λ p w. absurd (not_both refl p);
          sleeps = λ p. (refl, refl);
        },
        record {
          sent_same = refl;
          idle = refl;
          looping = refl;
          running = refl;
          fewer = omega arith;
        },
      )
      from_count (suc count) held total up =
          let (c, q', ran, l', s) =
            pop-Link made i (at_test i) q (suc count) held total b up (omega arith) refl
              (omega arith) in
          (c, q', shut held ∙ ran, l', s)

  pub end_consume-Link :
      (made i : ℕ) (q : PcQueue)
      → Link n g made q (in_wait i)
      → q.asleep ≡ false
      → Takes made (in_wait i) (end_consume i q)
  unfolding end_consume
  end_consume-Link made i q l up = subst (Takes made (in_wait i)) (rw up) (
      pop-Link made i (in_wait i) q l.count l.held l.total l.sound up (l.awake up refl) refl
        (omega arith))

  -- A link without a consumer, or with one that has taken nothing, to a queue without elements.
  pub new-Link :
      (c : Consumer) → taken n c ≡ 0 → IsSound n g c → is_waiting c ≡ false → Link n g 0 new_queue c
  new-Link c t s w = record {
    count = 0;
    held = refl;
    total = rw t;
    sound = s;
    awake = λ p w'. absurd (not_both w' w);
    sleeps = λ p. absurd (not_both p refl);
  }

  -- The consumer goes from one place to another without touching the queue.
  pub go-Link :
      (made : ℕ) (q : PcQueue) (c c' : Consumer)
      → taken n c' ≡ taken n c
      → IsSound n g c'
      → is_waiting c ≡ false
      → is_waiting c' ≡ false
      → Link n g made q c
      → Link n g made q c'
  go-Link made q c c' t s w w' l = record {
    count = l.count;
    held = rw (t, l.held);
    total = l.total ∙ ap (λ k. k + l.count) (sym t);
    sound = s;
    awake = λ p u. absurd (not_both u w');
    sleeps = λ p. absurd (not_both (l.sleeps p).0 w);
  }

  -- Once everything was sent, nobody sleeps.
  pub wakes : (i : ℕ) (q : PcQueue) → Link n g n q (in_wait i) → q.asleep ≡ false
  wakes i q l = elim (Bool-cases q.asleep) [
    | inr up ↦ up
    | inl sleeping ↦ absurd (omega (arith, l.sound, l.total, (l.sleeps sleeping).1))
  ]
