-- ===== src/Connection/Feed.antt =====
-- The read handler of modules/communicator/tcp_connection.cpp on the bytes that came in: it is
-- called whenever as many are there as it waits for.
use paracooba.Prelude.{
  ℕ, zero, suc, ◌+◌, ◌≡◌, refl, sym, length-append, ◌∙◌, Bool, true, false, ◌||◌, List, ◌++◌,
  length, take, drop, ltb, if◌then◌else◌, if_false, take-append, drop-append, append_assoc, arith,
}
use mathlib.Core.Path.{subst}
use paracooba.Connection.{
  Config, Env, Connection, ReadPlace, read_ended, read_undefined, should_handler_be_ended, is_gone,
}
use paracooba.Connection.Read.{read_handler, resume_at, wanted_at, got}

abbrev pub is_ended : ReadPlace → Bool
is_ended read_ended = true
is_ended read_undefined = true
is_ended _ = false

-- At most n calls of the handler: the connection after them, and the bytes that are left.
unfoldable pub feed : ℕ → Config → Env → List ℕ → Connection → Connection × List ℕ
unfolding read_handler wanted_at
feed zero c e xs s = (s, xs)
feed (suc n) c e xs s =
    let w = wanted_at s.read_place c s in
    let rest = feed n c e (drop w xs) (read_handler c e (got (take w xs)) s) in
    if is_ended s.read_place || ltb (length xs) w then (s, xs) else rest

-- The service runs, and the compute node is spoken to.
pub record IsRunning (e : Env) : Type 0 where
  pub not_gone : is_gone e.node_state ≡ false
  pub not_stopped : e.stopped ≡ false

pub running : (e : Env) (s : Connection) → IsRunning e → should_handler_be_ended e s ≡ false
unfolding should_handler_be_ended
running e s r = ground (arith, r.not_gone, r.not_stopped)

pub read_handler-running :
    (c : Config) (e : Env) (xs : List ℕ) (s : Connection)
    → IsRunning e
    → read_handler c e (got xs) s ≡ resume_at s.read_place c e xs s
unfolding read_handler
read_handler-running c e xs s r = if_false (should_handler_be_ended e s) _ _ (running e s r)

-- The bytes that are waited for are taken.
pub feed-step :
    (n : ℕ) (c : Config) (e : Env) (xs ys : List ℕ) (s : Connection)
    → IsRunning e
    → is_ended s.read_place ≡ false
    → length xs ≡ wanted_at s.read_place c s
    → feed (suc n) c e (xs ++ ys) s ≡ feed n c e ys (resume_at s.read_place c e xs s)
unfolding feed
feed-step n c e xs ys s r p h =
    let there : ltb (length (xs ++ ys)) (wanted_at s.read_place c s) ≡ false =
      ground (arith, length-append xs ys, h) in
    let front : take (wanted_at s.read_place c s) (xs ++ ys) ≡ xs =
      rw (sym h) (take-append xs ys) in
    let rest : drop (wanted_at s.read_place c s) (xs ++ ys) ≡ ys = rw (sym h) (drop-append xs ys) in
    rw (p, there, front, rest, read_handler-running c e xs s r) refl

-- From s with xs to come, a number of calls leads to t with ys to come.
pub record Feeds (c : Config) (e : Env) (xs : List ℕ) (s : Connection) (ys : List ℕ)
    (t : Connection) : Type 0 where
  pub count : ℕ
  pub reaches : (k : ℕ) → feed (count + k) c e xs s ≡ feed k c e ys t

pub Feeds-refl : (c : Config) (e : Env) (xs : List ℕ) (s : Connection) → Feeds c e xs s xs s
Feeds-refl c e xs s = record {
  count = 0;
  reaches = λ k. let z : 0 + k ≡ k = omega arith in rw z refl;
}

pub Feeds-trans :
    (c : Config) (e : Env) (xs ys zs : List ℕ) (s t u : Connection)
    → Feeds c e xs s ys t
    → Feeds c e ys t zs u
    → Feeds c e xs s zs u
Feeds-trans c e xs ys zs s t u f g = record {
  count = f.count + g.count;
  reaches = λ k.
      let z : (f.count + g.count) + k ≡ f.count + (g.count + k) = omega arith in
      rw z (f.reaches (g.count + k) ∙ g.reaches k);
}

pub Feeds-step :
    (c : Config) (e : Env) (xs ys : List ℕ) (s : Connection)
    → IsRunning e
    → is_ended s.read_place ≡ false
    → length xs ≡ wanted_at s.read_place c s
    → Feeds c e (xs ++ ys) s ys (resume_at s.read_place c e xs s)
Feeds-step c e xs ys s r p h = record {
  count = 1;
  reaches = λ k. let z : 1 + k ≡ suc k = omega arith in rw z (feed-step k c e xs ys s r p h);
}

-- Two parts of the bytes after each other.
pub Feeds-join :
    (c : Config) (e : Env) (xs ys rest : List ℕ) (s t u : Connection)
    → Feeds c e (xs ++ (ys ++ rest)) s (ys ++ rest) t
    → Feeds c e (ys ++ rest) t rest u
    → Feeds c e ((xs ++ ys) ++ rest) s rest u
Feeds-join c e xs ys rest s t u f g =
    subst (λ zs. Feeds c e zs s rest u) (sym (append_assoc xs ys rest))
      (Feeds-trans c e (xs ++ (ys ++ rest)) (ys ++ rest) rest s t u f g)
