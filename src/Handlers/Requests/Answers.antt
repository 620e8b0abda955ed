-- ===== src/Handlers/Requests/Answers.antt =====
-- p9/server.go: which goroutines of a connection receive, and which answers are sent or on their way.
use p.Base.{
  ℕ, ◌+◌, ◌<◌, ◌≤◌, ◌≡◌, refl, List, [], ◌∷◌, ◌++◌, Bool, true, false, ◌==◌, arith, Bool-cases, inl,
  inr, true_is_no_false, sym, ◌∙◌,
}
use p.Server.Owners.{count, one_if}
use p.Messages.Message.{Message}
use p.Handlers.{FileSystem}
use p.Handlers.Requests.{
  Goroutine, starting, waiting, receiving, in_handler, in_flush, handled, answering, Serving,
  spawned, Move, arrives, locks, leaves, breaks, refuses, receives, drops, begins, handles, awaits,
  wakes, clears, sends, Served, opens, moves,
}

abbrev pub total : (Goroutine → ℕ) → List Goroutine → ℕ
total f [] = 0
total f (g ∷ gs) = f g + total f gs

abbrev pub is_waiting : Goroutine → ℕ
is_waiting waiting = 1
is_waiting g = 0

abbrev pub is_receiving : Goroutine → ℕ
is_receiving receiving = 1
is_receiving g = 0

-- It holds recvMu, or comes to it without anything else to wait for.
abbrev pub can_receive : Goroutine → ℕ
can_receive starting = 1
can_receive waiting = 1
can_receive receiving = 1
can_receive g = 0

-- It has a request of the tag to answer.
abbrev pub owes : ℕ → Goroutine → ℕ
owes t (in_handler tag m) = one_if (t == tag)
owes t (in_flush tag m ch) = one_if (t == tag)
owes t (handled tag r) = one_if (t == tag)
owes t (answering tag r) = one_if (t == tag)
owes t g = 0

abbrev pub tags_of : List (ℕ × Message) → List ℕ
tags_of [] = []
tags_of ((tag, r) ∷ sent) = tag ∷ tags_of sent

total-append :
    (f : Goroutine → ℕ) (xs ys : List Goroutine) → total f (xs ++ ys) ≡ total f xs + total f ys
total-append f [] ys = omega arith
total-append f (x ∷ xs) ys = omega (arith, total-append f xs ys)

waiting-le : (gs : List Goroutine) → total is_waiting gs ≤ total can_receive gs
waiting-le [] = omega arith
waiting-le (starting ∷ gs) = omega (arith, waiting-le gs)
waiting-le (waiting ∷ gs) = omega (arith, waiting-le gs)
waiting-le (receiving ∷ gs) = omega (arith, waiting-le gs)
waiting-le (g ∷ gs) = omega (arith, waiting-le gs)

one_if-le : (b : Bool) → one_if b ≤ 1
one_if-le true = omega arith
one_if-le false = omega arith

spawned-none : (f : Goroutine → ℕ) (n : ℕ) → f starting ≡ 0 → total f (spawned n) ≡ 0
spawned-none f n h = elim (Bool-cases (n == 0)) [
  | inl none_idle ↦ rw none_idle (omega (arith, h))
  | inr some_idle ↦ rw some_idle refl
]

spawned-receives : (n : ℕ) → 1 ≤ total can_receive (spawned n) + n
spawned-receives n = elim (Bool-cases (n == 0)) [
  | inl none_idle ↦ rw none_idle (omega arith)
  | inr some_idle ↦ rw some_idle (ground (arith, some_idle))
]

module _ {B : Type 0} (fs : FileSystem B) where
  -- What a step changes in the numbers, where `g` is replaced by `new`.
  record Balance (s : Serving B) (g : Goroutine) (s' : Serving B) (new : List Goroutine)
      : Type 0 where
    idle : s'.recv_idle + is_waiting g ≡ s.recv_idle + total is_waiting new
    held :
        is_receiving g ≤ one_if s.recv_held
        → one_if s'.recv_held + is_receiving g ≡ one_if s.recv_held + total is_receiving new
    still : s'.recv_shutdown ≡ false → s.recv_shutdown ≡ false
    ready : s'.recv_shutdown ≡ false → can_receive g ≤ total can_receive new + s'.recv_idle
    owed :
        (t : ℕ)
        → count t s'.accepted + (owes t g + count t (tags_of s.sent))
          ≡ count t s.accepted + (total (owes t) new + count t (tags_of s'.sent))

  Move-Balance :
      {s s' : Serving B} {g : Goroutine} {new : List Goroutine}
      → Move fs s g s' new
      → Balance s g s' new
  Move-Balance (arrives s) = record {
    idle = omega arith;
    held = λ h. omega arith;
    still = λ e. e;
    ready = λ e. omega arith;
    owed = λ t. omega arith;
  }
  Move-Balance (locks s n free some_idle) = record {
    idle = omega (arith, some_idle);
    held = λ h. rw free (omega arith);
    still = λ e. e;
    ready = λ e. omega arith;
    owed = λ t. omega arith;
  }
  Move-Balance (leaves s down) = record {
    idle = omega arith;
    held = λ h. omega (arith, h, one_if-le s.recv_held);
    still = λ e. e;
    ready = λ e. absurd (true_is_no_false (sym down ∙ e));
    owed = λ t. omega arith;
  }
  Move-Balance (breaks s up) = record {
    idle = omega arith;
    held = λ h. omega (arith, h, one_if-le s.recv_held);
    still = λ e. up;
    ready = λ e. absurd (true_is_no_false e);
    owed = λ t. omega arith;
  }
  Move-Balance (refuses s tag e up) = record {
    idle = omega (arith, spawned-none is_waiting s.recv_idle refl);
    held = λ h. omega (arith, h, one_if-le s.recv_held, spawned-none is_receiving s.recv_idle refl);
    still = λ e. up;
    ready = λ e. omega (arith, spawned-receives s.recv_idle);
    owed = λ t. omega (arith, spawned-none (owes t) s.recv_idle refl);
  }
  Move-Balance (receives s tag m up) = record {
    idle = omega (arith, spawned-none is_waiting s.recv_idle refl);
    held = λ h. omega (arith, h, one_if-le s.recv_held, spawned-none is_receiving s.recv_idle refl);
    still = λ e. up;
    ready = λ e. omega (arith, spawned-receives s.recv_idle);
    owed = λ t. omega (arith, spawned-none (owes t) s.recv_idle refl);
  }
  Move-Balance (drops s tag m active) = record {
    idle = omega arith;
    held = λ h. omega arith;
    still = λ e. e;
    ready = λ e. omega arith;
    owed = λ t. omega arith;
  }
  Move-Balance (begins s tag m free) = record {
    idle = omega arith;
    held = λ h. omega arith;
    still = λ e. e;
    ready = λ e. omega arith;
    owed = λ t. omega arith;
  }
  Move-Balance (handles s tag m e) = record {
    idle = omega arith;
    held = λ h. omega arith;
    still = λ e. e;
    ready = λ e. omega arith;
    owed = λ t. omega arith;
  }
  Move-Balance (awaits s tag m ch e) = record {
    idle = omega arith;
    held = λ h. omega arith;
    still = λ e. e;
    ready = λ e. omega arith;
    owed = λ t. omega arith;
  }
  Move-Balance (wakes s tag m ch e) = record {
    idle = omega arith;
    held = λ h. omega arith;
    still = λ e. e;
    ready = λ e. omega arith;
    owed = λ t. omega arith;
  }
  Move-Balance (clears s tag r tags e) = record {
    idle = omega arith;
    held = λ h. omega arith;
    still = λ e. e;
    ready = λ e. omega arith;
    owed = λ t. omega arith;
  }
  Move-Balance (sends s tag r) = record {
    idle = omega arith;
    held = λ h. omega arith;
    still = λ e. e;
    ready = λ e. omega arith;
    owed = λ t. omega arith;
  }

  record Accounts (s : Serving B) (gs : List Goroutine) : Type 0 where
    idle : s.recv_idle ≡ total is_waiting gs
    held : one_if s.recv_held ≡ total is_receiving gs
    ready : s.recv_shutdown ≡ false → 0 < total can_receive gs
    owed : (t : ℕ) → count t s.accepted ≡ count t (tags_of s.sent) + total (owes t) gs

  old-total :
      (f : Goroutine → ℕ) (before after : List Goroutine) (g : Goroutine)
      → total f (before ++ g ∷ after) ≡ total f before + (f g + total f after)
  old-total f before after g = total-append f before (g ∷ after)

  new-total :
      (f : Goroutine → ℕ) (before new after : List Goroutine)
      → total f (before ++ (new ++ after)) ≡ total f before + (total f new + total f after)
  new-total f before new after =
      omega (arith, total-append f before (new ++ after), total-append f new after)

  Served-Accounts : {s : Serving B} {gs : List Goroutine} → Served fs s gs → Accounts s gs
  Served-Accounts (opens conn) = record {
    idle = refl;
    held = refl;
    ready = λ e. omega arith;
    owed = λ t. refl;
  }
  Served-Accounts (moves s s' before g new after h move) =
      let a = Served-Accounts h in
      let b = Move-Balance move in
      let here : is_receiving g ≤ one_if s.recv_held =
        omega (arith, a.held, old-total is_receiving before after g) in
      let idle : s'.recv_idle ≡ total is_waiting (before ++ (new ++ after)) = omega (
        arith,
        a.idle,
        b.idle,
        old-total is_waiting before after g,
        new-total is_waiting before new after,
      ) in
      record {
        idle = idle;
        held = omega (
          arith,
          a.held,
          b.held here,
          old-total is_receiving before after g,
          new-total is_receiving before new after,
        );
        ready = λ e. omega (
          arith,
          a.ready (b.still e),
          b.ready e,
          idle,
          waiting-le (before ++ (new ++ after)),
          old-total can_receive before after g,
          new-total can_receive before new after,
        );
        owed = λ t. omega (
          arith,
          a.owed t,
          b.owed t,
          old-total (owes t) before after g,
          new-total (owes t) before new after,
        );
      }

  -- In every order of the goroutines of a connection: unless a connection error was met, there is one that
  -- receives or comes to it with nothing but recvMu to wait for, however many handlers are busy or
  -- wait; no two receive at once; and of every tag, the answers that were sent and those that
  -- goroutines have still to send are as many as the requests of it that were accepted: the messages whose
  -- tag was free, and the errors that are none of the connection.
  pub Served-answers :
      (s : Serving B) (gs : List Goroutine)
      → Served fs s gs
      → (s.recv_shutdown ≡ false → 0 < total can_receive gs)
        × (total is_receiving gs ≤ 1)
        × ((t : ℕ) → count t s.accepted ≡ count t (tags_of s.sent) + total (owes t) gs)
  Served-answers s gs h =
      let a = Served-Accounts h in (a.ready, omega (arith, a.held, one_if-le s.recv_held), a.owed)
