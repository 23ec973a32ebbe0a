-- ===== src/SendQueue/Numbers.antt =====
-- The numbers of the entries: each is given once (modules/communicator/message_send_queue.cpp).
pub mod Steps
use paracooba.Prelude.{
  ℕ, ◌+◌, ◌-◌, ◌≤◌, ◌≡◌, refl, ap, Bool, true, false, not, ◌&&◌, none, List, [], ◌∷◌, ◌++◌, ltb,
  ◌==◌, Bool-cases, if_intro, arith, inl, inr,
}
use paracooba.Messages.{MessageKind, is_waiting_for_ack, is_ack, ack, keepalive}
use paracooba.SendQueue.{SendQueue, Entry, find, erase, try_emplace}
use paracooba.SendQueue.Ledger.{one}

-- How many entries of the list have the number n, acknowledgements not counted.
abbrev pub uses : ℕ → List Entry → ℕ
uses n [] = 0
uses n (e ∷ es) = one (e.number == n && not (is_ack e.kind)) + uses n es

-- Each entry of the list is of a kind that waits for an acknowledgement.
abbrev pub AllWaiting : List Entry → Type 0
AllWaiting [] = Unit {0}
AllWaiting (e ∷ es) = (is_waiting_for_ack e.kind ≡ true) × AllWaiting es

-- No number is used twice, none that is still to be given is used, and only what is to be
-- acknowledged waits for that.
pub record IsNumbered (q : SendQueue) : Type 0 where
  pub once : (n : ℕ) → uses n q.queued + uses n q.waiting_for_ack ≤ 1
  pub fresh : (n : ℕ) → q.message_number ≤ n → uses n q.queued + uses n q.waiting_for_ack ≡ 0
  pub waiting : AllWaiting q.waiting_for_ack

pub uses-append : (n : ℕ) (xs ys : List Entry) → uses n (xs ++ ys) ≡ uses n xs + uses n ys
uses-append n [] ys = omega arith
uses-append n (x ∷ xs) ys = omega (arith, uses-append n xs ys)

pub uses-erase : (n m : ℕ) (ws : List Entry) → uses n (erase m ws) ≤ uses n ws
unfolding erase
uses-erase n m [] = omega arith
uses-erase n m (w ∷ ws) =
    if_intro (λ xs. uses n xs ≤ uses n (w ∷ ws)) (w.number == m) ws _ (λ _. omega arith)
      (λ _. omega (arith, uses-erase n m ws))

pub uses-try_emplace :
    (n : ℕ) (e : Entry) (ws : List Entry)
    → uses n (try_emplace e ws) ≤ one (e.number == n && not (is_ack e.kind)) + uses n ws
unfolding try_emplace
uses-try_emplace n e [] = omega arith
uses-try_emplace n e (w ∷ ws) =
    let P = λ (xs : List Entry).
      uses n xs ≤ one (e.number == n && not (is_ack e.kind)) + uses n (w ∷ ws) in
    if_intro P (w.number == e.number) _ _ (λ _. omega arith)
      (λ _.
        if_intro P (ltb e.number w.number) _ _ (λ _. omega arith)
          (λ _. omega (arith, uses-try_emplace n e ws)))

pub AllWaiting-erase : (m : ℕ) (ws : List Entry) → AllWaiting ws → AllWaiting (erase m ws)
unfolding erase
AllWaiting-erase m [] a = tt
AllWaiting-erase m (w ∷ ws) a =
    if_intro AllWaiting (w.number == m) ws _ (λ _. a.1) (λ _. (a.0, AllWaiting-erase m ws a.1))

pub AllWaiting-try_emplace :
    (e : Entry) (ws : List Entry)
    → is_waiting_for_ack e.kind ≡ true
    → AllWaiting ws
    → AllWaiting (try_emplace e ws)
unfolding try_emplace
AllWaiting-try_emplace e [] w a = (w, tt)
AllWaiting-try_emplace e (x ∷ ws) w a =
    if_intro AllWaiting (x.number == e.number) _ _ (λ _. a)
      (λ _.
        if_intro AllWaiting (ltb e.number x.number) _ _ (λ _. (w, a))
          (λ _. (a.0, AllWaiting-try_emplace e ws w a.1)))

pub not_ack : (k : MessageKind) → is_waiting_for_ack k ≡ true → is_ack k ≡ false
not_ack ack h = cc
not_ack keepalive h = refl
not_ack k h = ground arith

-- A number that no entry uses is not found.
find-unused : (n : ℕ) (ws : List Entry) → AllWaiting ws → uses n ws ≡ 0 → find n ws ≡ none
unfolding find
find-unused n [] a h = refl
find-unused n (w ∷ ws) a h =
    let k = not_ack w.kind a.0 in
    elim (Bool-cases (w.number == n)) [
      | inl s ↦ absurd (ground (arith, k))
      | inr s ↦ rw s (find-unused n ws a.1 (omega arith))
    ]

-- The front entry's number is free among those that wait.
pub find-front :
    (q : SendQueue) (r : Entry) (rest : List Entry)
    → IsNumbered q
    → q.queued ≡ r ∷ rest
    → is_waiting_for_ack r.kind ≡ true
    → find r.number q.waiting_for_ack ≡ none
find-front q r rest v e w =
    let k = not_ack r.kind w in
    let front : one (r.number == r.number && not (is_ack r.kind)) ≡ 1 = ground (arith, k) in
    find-unused r.number q.waiting_for_ack v.waiting
      (omega (arith, v.once r.number, ap (uses r.number) e, front))
