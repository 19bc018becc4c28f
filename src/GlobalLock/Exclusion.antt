-- ===== src/GlobalLock/Exclusion.antt =====
-- GlobalLock.java: who holds the lock.
use mq_kafka.Prelude.{
  ℕ, suc, ◌≡◌, ◌≢◌, refl, ◌∙◌, ap, sym, inl, inr, true, false, Bool-cases, Option-cases, Option,
  none, some, List, [], ◌∷◌, ltb, arith,
}
use mq_kafka.Calls.{Reply, done, refused, unanswered, answered}
use mq_kafka.GlobalLock.{
  Redis, expired, System, put, acquire_lock_script, unlock_script, attempt, unlock, acquire_permit,
}

-- A step of some thread: a round of its loop with a new value, its unlock, or its wait for a
-- permit.
pub data Event : Type 0 where
  attempts : Reply → ℕ → ℕ → Event
  unlocks : Reply → ℕ → ℕ → Event
  waits : ℕ → Event

module _ (redis : Redis) where
  open redis use {Key, get, setnx, expire, del}

  acquire_lock_script_taken :
      (v w n : ℕ) (k : Key)
      → get k ≡ some w
      → (get (acquire_lock_script redis v n k).0 ≡ some w)
        × ((acquire_lock_script redis v n k).1 ≡ false)
  unfolding acquire_lock_script
  acquire_lock_script_taken v w n k e =
      let (kept, lost) = redis.setnx_taken v w k e in rw lost (kept, refl)

  acquire_lock_script_free :
      (v n : ℕ) (k : Key)
      → get k ≡ none
      → (get (acquire_lock_script redis v (suc n) k).0 ≡ some v)
        × ((acquire_lock_script redis v (suc n) k).1 ≡ true)
  unfolding acquire_lock_script
  acquire_lock_script_free v n k e =
      let (set, fresh) = redis.setnx_free v k e in
      rw fresh (redis.get_expire n (setnx v k).0 ∙ set, refl)

  unlock_script_own : (v : ℕ) (k : Key) → get k ≡ some v → get (unlock_script redis v k) ≡ none
  unfolding unlock_script
  unlock_script_own v k e = ground (arith, redis.get_del k)

  unlock_script_other :
      (v w : ℕ) (k : Key) → get k ≡ some w → v ≢ w → get (unlock_script redis v k) ≡ some w
  unfolding unlock_script
  unlock_script_other v w k e n = ground arith

  abbrev waited : Option (System Key) → System Key → System Key
  waited none s = s
  waited (some after) s = after

  abbrev pub happen : Event → System Key → System Key
  happen (attempts reply v t) s = (attempt redis reply v t s).0
  happen (unlocks reply process t) s = unlock redis reply process t s
  happen (waits process) s = waited (acquire_permit redis process s) s

  abbrev pub history : List Event → System Key → System Key
  history [] s = s
  history (e ∷ es) s = history es (happen e s)

  -- Every value that a thread keeps is the key's, and one thread at most keeps one.
  pub record IsExclusive (s : System Key) : Type 0 where
    pub owned : (t v : ℕ) → s.value t ≡ some v → get s.key ≡ some v
    pub alone : (t u v w : ℕ) → s.value t ≡ some v → s.value u ≡ some w → t ≡ u

  attempt-held :
      (reply : Reply) (v w t : ℕ) (s : System Key)
      → get s.key ≡ some w
      → (get (attempt redis reply v t s).0.key ≡ some w)
        × ((attempt redis reply v t s).0.value ≡ s.value)
        × ((attempt redis reply v t s).1 ≡ false)
  unfolding attempt
  attempt-held done v w t s e =
      let taken = acquire_lock_script_taken v w expired s.key e in rw taken.1 (taken.0, refl, refl)
  attempt-held refused v w t s e = (e, refl, refl)
  attempt-held unanswered v w t s e =
      ((acquire_lock_script_taken v w expired s.key e).0, refl, refl)

  attempt-free :
      (v t : ℕ) (s : System Key)
      → get s.key ≡ none
      → (get (attempt redis done v t s).0.key ≡ some v)
        × ((attempt redis done v t s).0.value ≡ put t (some v) s.value)
        × ((attempt redis done v t s).1 ≡ true)
  unfolding attempt
  attempt-free v t s e =
      let free = acquire_lock_script_free v 899999 s.key e in rw free.1 (free.0, refl, refl)

  attempt-unanswered :
      (reply : Reply) (v t : ℕ) (s : System Key)
      → answered reply ≡ false
      → (attempt redis reply v t s).0.value ≡ s.value
  unfolding attempt
  attempt-unanswered reply v t s a = rw a

  nobody : (s : System Key) (t v : ℕ) → IsExclusive s → get s.key ≡ none → s.value t ≢ some v
  nobody s t v x e h = let o = x.owned t v h in cc

  put_cases :
      (t u v w : ℕ) (f : ℕ → Option ℕ)
      → f u ≢ some w
      → put t (some v) f u ≡ some w
      → (t ≡ u) × (v ≡ w)
  put_cases t u v w f n h = ground arith

  put-none : (t u w : ℕ) (f : ℕ → Option ℕ) → put t none f u ≡ some w → (t ≢ u) × (f u ≡ some w)
  put-none t u w f h = ground arith

  taken-IsExclusive :
      (v t : ℕ) (s after : System Key)
      → IsExclusive s
      → get s.key ≡ none
      → get after.key ≡ some v
      → after.value ≡ put t (some v) s.value
      → IsExclusive after
  taken-IsExclusive v t s after x e k p =
      let mine : (u w : ℕ) → after.value u ≡ some w → (t ≡ u) × (v ≡ w) =
        λ u w h. put_cases t u v w s.value (nobody s u w x e) (sym (ap (λ f. f u) p) ∙ h) in
      record {
        owned = λ u w h. k ∙ ap some (mine u w h).1;
        alone = λ u u' w w' h h'. sym (mine u w h).0 ∙ (mine u' w' h').0;
      }

  unchanged-IsExclusive :
      (s after : System Key)
      → IsExclusive s
      → after.value ≡ s.value
      → ((w : ℕ) → get s.key ≡ some w → get after.key ≡ some w)
      → IsExclusive after
  unchanged-IsExclusive s after x p k =
      let was : (u w : ℕ) → after.value u ≡ some w → s.value u ≡ some w =
        λ u w h. sym (ap (λ f. f u) p) ∙ h in
      record {
        owned = λ u w h. k w (x.owned u w (was u w h));
        alone = λ u u' w w' h h'. x.alone u u' w w' (was u w h) (was u' w' h');
      }

  free_attempt-IsExclusive :
      (reply : Reply) (v t : ℕ) (s : System Key)
      → IsExclusive s
      → get s.key ≡ none
      → IsExclusive (attempt redis reply v t s).0
  free_attempt-IsExclusive done v t s x e =
      let free = attempt-free v t s e in
      taken-IsExclusive v t s (attempt redis done v t s).0 x e free.0 free.1
  free_attempt-IsExclusive refused v t s x e =
      unchanged-IsExclusive s (attempt redis refused v t s).0 x
        (attempt-unanswered refused v t s refl) (λ w k. cc)
  free_attempt-IsExclusive unanswered v t s x e =
      unchanged-IsExclusive s (attempt redis unanswered v t s).0 x
        (attempt-unanswered unanswered v t s refl) (λ w k. cc)

  attempt-IsExclusive :
      (reply : Reply) (v t : ℕ) (s : System Key)
      → IsExclusive s
      → IsExclusive (attempt redis reply v t s).0
  attempt-IsExclusive reply v t s x = elim (Option-cases (get s.key)) [
    | inl free ↦ free_attempt-IsExclusive reply v t s x free
    | inr (w, taken) ↦
        let held = attempt-held reply v w t s taken in
        unchanged-IsExclusive s (attempt redis reply v t s).0 x held.1
          (λ w' k. held.0 ∙ sym taken ∙ k)
  ]

  released-IsExclusive :
      (t : ℕ) (s after : System Key)
      → IsExclusive s
      → after.value ≡ put t none s.value
      → ((u w : ℕ) → t ≢ u → s.value u ≡ some w → get after.key ≡ some w)
      → IsExclusive after
  released-IsExclusive t s after x p k =
      let was : (u w : ℕ) → after.value u ≡ some w → (t ≢ u) × (s.value u ≡ some w) =
        λ u w h. put-none t u w s.value (sym (ap (λ f. f u) p) ∙ h) in
      record {
        owned = λ u w h. k u w (was u w h).0 (was u w h).1;
        alone = λ u u' w w' h h'. x.alone u u' w w' (was u w h).1 (was u' w' h').1;
      }

  -- Where another thread holds the lock, an unlock leaves its value.
  unlock-key :
      (reply : Reply) (process t u w : ℕ) (s : System Key)
      → IsExclusive s
      → t ≢ u
      → s.value u ≡ some w
      → get (unlock redis reply process t s).key ≡ some w
  unfolding unlock
  unlock-key reply process t u w s x n h = elim (Option-cases (s.value t)) [
    | inl free ↦ rw free (x.owned u w h)
    | inr (v, kept) ↦ absurd (n (x.alone t u v w kept h))
  ]

  unlock-IsExclusive :
      (reply : Reply) (process t : ℕ) (s : System Key)
      → IsExclusive s
      → IsExclusive (unlock redis reply process t s)
  unfolding unlock
  unlock-IsExclusive reply process t s x =
      released-IsExclusive t s (unlock redis reply process t s) x refl
        (λ u w n h. unlock-key reply process t u w s x n h)

  waited-IsExclusive :
      (process : ℕ) (s : System Key)
      → IsExclusive s
      → IsExclusive (waited (acquire_permit redis process s) s)
  unfolding acquire_permit
  waited-IsExclusive process s x = elim (Bool-cases (ltb 0 (s.permits process))) [
    | inl some_left ↦ rw some_left (record { owned = x.owned; alone = x.alone })
    | inr none_left ↦ rw none_left x
  ]

  kept-IsExclusive : (es : List Event) (s : System Key) → IsExclusive s → IsExclusive (history es s)
  kept-IsExclusive [] s x = x
  kept-IsExclusive (attempts reply v t ∷ es) s x =
      kept-IsExclusive es (attempt redis reply v t s).0 (attempt-IsExclusive reply v t s x)
  kept-IsExclusive (unlocks reply process t ∷ es) s x =
      kept-IsExclusive es (unlock redis reply process t s) (unlock-IsExclusive reply process t s x)
  kept-IsExclusive (waits process ∷ es) s x =
      kept-IsExclusive es (waited (acquire_permit redis process s) s)
        (waited-IsExclusive process s x)

  -- From a state in which no thread holds the lock: as long as the key does not expire, at most one
  -- thread holds it, in whatever order the threads of all processes take their rounds, unlock and
  -- wait, and however the calls of Redis end; and the value it keeps is that of the key.
  pub history-IsExclusive :
      (es : List Event) (s : System Key) → ((t : ℕ) → s.value t ≡ none) → IsExclusive (history es s)
  history-IsExclusive es s free = kept-IsExclusive es s (record {
    owned = λ t v h. let e = free t in cc;
    alone = λ t u v w h h'. let e = free t in cc;
  })

  stale_unlock-key :
      (reply : Reply) (process t v w : ℕ) (s : System Key)
      → s.value t ≡ some v
      → get s.key ≡ some w
      → v ≢ w
      → get (unlock redis reply process t s).key ≡ some w
  unfolding unlock
  stale_unlock-key done process t v w s a k d = rw a (unlock_script_other v w s.key k d)
  stale_unlock-key refused process t v w s a k d = rw a k
  stale_unlock-key unanswered process t v w s a k d = rw a (unlock_script_other v w s.key k d)

  unlock-value :
      (reply : Reply) (process t u : ℕ) (s : System Key)
      → t ≢ u
      → (unlock redis reply process t s).value u ≡ s.value u
  unfolding unlock
  unlock-value reply process t u s n = ground arith

  own_unlock-key :
      (process t v : ℕ) (s : System Key)
      → s.value t ≡ some v
      → get s.key ≡ some v
      → get (unlock redis done process t s).key ≡ none
  unfolding unlock
  own_unlock-key process t v s a k = rw a (unlock_script_own v s.key k)

  -- A thread whose key expired, and was taken by another with a different value since, leaves the
  -- lock to that one: neither its unlock nor a round of its loop changes the key's value or what
  -- the other keeps, and the round is not won.
  pub stale-keeps_owner :
      (reply : Reply) (process t u v w x : ℕ) (s : System Key)
      → t ≢ u
      → s.value t ≡ some v
      → s.value u ≡ some w
      → get s.key ≡ some w
      → v ≢ w
      → let unlocked = unlock redis reply process t s in
        let (tried, answer) = attempt redis reply x t unlocked in
        (get tried.key ≡ some w) × (tried.value u ≡ some w) × (answer ≡ false)
  stale-keeps_owner reply process t u v w x s n a b k d =
      let unlocked = unlock redis reply process t s in
      let held = attempt-held reply x w t unlocked (stale_unlock-key reply process t v w s a k d) in
      (held.0, ap (λ f. f u) held.1 ∙ unlock-value reply process t u s n ∙ b, held.2)

  -- The lock is free again when its holder has unlocked it: the next thread's round wins it.
  pub unlock-attempt :
      (process t u v x : ℕ) (s : System Key)
      → s.value t ≡ some v
      → get s.key ≡ some v
      → let (after, answer) = attempt redis done x u (unlock redis done process t s) in
        (answer ≡ true) × (after.value u ≡ some x) × (get after.key ≡ some x)
  unlock-attempt process t u v x s a k =
      let won =
        attempt-free x u (unlock redis done process t s) (own_unlock-key process t v s a k) in
      (won.2, ap (λ f. f u) won.1 ∙ ground arith, won.0)
