-- ===== src/Examples/Fids.antt =====
-- A fid that is attached, and deleted again.
use p.Base.{◌≤◌, ◌<◌, ◌≡◌, ◌↔◌, refl, [], ◌∷◌, none}
use p.Server.{Server, dec_ref, insert_fid, inc_ref, delete_fid, make_ref}
use p.Server.Owners.{state, owners, count}
use p.Server.Open.{
  new_state, Reached, start, step, makes_root, inserts, gives_back, deletes, fid-open, closed-once,
}

-- The root reference is made, gets the fid 1, and is given back by the handler of Tattach.
abbrev pub rooted : Server
rooted = make_ref 0 none new_state.server

abbrev pub inserted : Server
inserted = (insert_fid 1 0 rooted).1

abbrev pub attached : Server
attached = (dec_ref 0 inserted).1

pub inserted-Reached : Reached (state inserted (0 ∷ []) 1)
unfolding make_ref insert_fid inc_ref
inserted-Reached =
    step (state rooted (0 ∷ []) 1) (state inserted (0 ∷ []) 1)
      (step new_state (state rooted (0 ∷ []) 1) start (makes_root new_state.server [] 0))
      (inserts rooted [] [] 1 1 0)

pub attached-Reached : Reached (state attached [] 1)
unfolding make_ref insert_fid inc_ref dec_ref
attached-Reached =
    step (state inserted (0 ∷ []) 1) (state attached [] 1) inserted-Reached
      (gives_back inserted [] [] 1 0)

-- The handler of Tclunk deletes the fid and gives its reference back.
abbrev clunked : Server
clunked = (dec_ref 0 (delete_fid 1 attached).1).1

clunked-Reached : Reached (state clunked [] 1)
unfolding make_ref insert_fid inc_ref dec_ref delete_fid
clunked-Reached =
    step (state (delete_fid 1 attached).1 (0 ∷ []) 1) (state clunked [] 1)
      (step (state attached [] 1) (state (delete_fid 1 attached).1 (0 ∷ []) 1) attached-Reached
        (deletes attached [] 1 1))
      (gives_back (delete_fid 1 attached).1 [] [] 1 0)

fid-open_example : (0 < (attached.fid_refs 0).refs) × (count 0 attached.closed ≡ 0)
unfolding make_ref insert_fid inc_ref dec_ref
fid-open_example = fid-open (state attached [] 1) 1 0 attached-Reached refl

closed-once_example :
    (count 0 clunked.closed ≤ 1)
    × ((count 0 clunked.closed ≡ 1) ↔ ((0 < 1) × (owners (state clunked [] 1) 0 ≡ 0)))
closed-once_example = closed-once (state clunked [] 1) 0 clunked-Reached
