-- ===== src/Handlers/Refusals/UnsafeName.antt =====
-- p9/handlers.go: requests that give a file a name that is not safe.
use p.Base.{
  ℕ, List, ◌≡◌, refl, sym, ap, ◌∙◌, Bool, true, false, ◌&&◌, true_is_no_false, Bool-cases, inl, inr,
}
use p.Linux.{errno, einval}
use p.Messages.Message.{Message}
use p.Handlers.{FileSystem}
use p.Handlers.State.{M, ConnState, ◌>>◌}
use p.Handlers.Names.{is_safe_name, check_safe_name}
use p.Handlers.Dispatch.{handler, handle, answered, new_err}
use p.Handlers.Refusals.{
  names_of, all_safe, Refuses, Refuses-bind, Refuses-then, Refuses-after, Passes-safe,
  Refuses-unsafe,
}

and_true : (b : Bool) → (b && true) ≡ false → b ≡ false
and_true true h = h
and_true false h = refl

second_false : {b : Bool} (c : Bool) → b ≡ true → (b && (c && true)) ≡ false → c ≡ false
second_false {b} c old h = and_true c (ap (λ x. x && (c && true)) (sym old) ∙ h)

module _ {B : Type 0} (fs : FileSystem B) where
  refuses-first :
      {A : Type 0} (name : List ℕ) (k : M B A) (s : ConnState B)
      → (is_safe_name name && true) ≡ false
      → Refuses (errno einval) s (check_safe_name name >> k)
  refuses-first name k s bad =
      Refuses-then k (Refuses-unsafe name s (and_true (is_safe_name name) bad))

  unsafe :
      (m : Message) (s : ConnState B)
      → all_safe (names_of m) ≡ false
      → Refuses (errno einval) s (handler fs m)
  unfolding handler
  unsafe (Message.tlcreate t) s bad = Refuses-bind _ (refuses-first t.name _ s bad)
  unsafe (Message.tsymlink t) s bad = Refuses-bind _ (refuses-first t.name _ s bad)
  unsafe (Message.tmknod t) s bad = Refuses-bind _ (refuses-first t.name _ s bad)
  unsafe (Message.trename t) s bad = Refuses-bind _ (refuses-first t.name _ s bad)
  unsafe (Message.tlink t) s bad = Refuses-bind _ (refuses-first t.name _ s bad)
  unsafe (Message.tmkdir t) s bad = Refuses-bind _ (refuses-first t.name _ s bad)
  unsafe (Message.trenameat t) s bad = elim (Bool-cases (is_safe_name t.old_name)) [
    | inl old ↦
        let is_bad : is_safe_name t.new_name ≡ false =
          second_false (is_safe_name t.new_name) old bad in
        search (Refuses-bind, Refuses-then, Refuses-after, Passes-safe, Refuses-unsafe, is_bad, old)
          depth 8
    | inr is_bad ↦ search (Refuses-bind, Refuses-then, Refuses-unsafe, is_bad) depth 8
  ]
  unsafe (Message.tunlinkat t) s bad = Refuses-bind _ (refuses-first t.name _ s bad)
  unsafe (Message.tucreate t) s bad =
      Refuses-bind _ (Refuses-bind _ (refuses-first t.tlcreate.name _ s bad))
  unsafe (Message.tumkdir t) s bad =
      Refuses-bind _ (Refuses-bind _ (refuses-first t.tmkdir.name _ s bad))
  unsafe (Message.tumknod t) s bad =
      Refuses-bind _ (Refuses-bind _ (refuses-first t.tmknod.name _ s bad))
  unsafe (Message.tusymlink t) s bad =
      Refuses-bind _ (Refuses-bind _ (refuses-first t.tsymlink.name _ s bad))
  unsafe m s bad = absurd (true_is_no_false bad)

  -- A request that gives a file a name that is empty, is "." or "..", or has a '/' in it, walks excepted,
  -- is answered EINVAL, and nothing changes: the files are not asked, so no such name gets to them.
  pub handle-unsafe_name :
      (m : Message) (s : ConnState B)
      → all_safe (names_of m) ≡ false
      → handle fs m s ≡ (new_err (errno einval), s)
  unfolding handle
  handle-unsafe_name m s bad = ap answered (unsafe m s bad).refuses
