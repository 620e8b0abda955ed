-- ===== src/Examples/Requests.antt =====
-- Requests at concrete inputs.
use p.Base.{
  ℕ, suc, ◌+◌, ◌<◌, ◌≤◌, ◌≡◌, ◌≢◌, refl, List, [], ◌∷◌, ◌++◌, true, false, none, some, ◌==◌, arith,
}
use p.Base.Assoc.{member}
use p.Linux.{
  errno, wrap, join, syscall_errno, other, eof, einval, ebadf, eperm, extract_errno, eexist, eio,
  enotempty,
}
use p.Linux.Extract.{wrapped, extract_errno-of_wrapped}
use p.FileMode.{mode_directory, mode_regular, open_mode, mode_from_os, os_mode, is_dir}
use p.FileMode.Convert.{directory, mode_from_os-os_mode}
use p.Server.{make_ref, insert_fid, inc_ref, dec_ref, find_fid, lookup_fid}
use p.Server.Owners.{state, count}
use p.Server.Open.{Reached}
use p.Server.Tags.{
  Tags, no_tags, start_tag, started, clear_tag, wait_tag, handling, TagsReached, begin, go_on,
  starts,
}
use p.Server.Tags.Cleared.{clear_tag-frees}
use p.Messages.Message.{Message}
use p.Messages.Message.Blank.Zero.{zero_attr_mask}
use p.Messages.Attributes.{Txattrcreate}
use p.Messages.Transfer.{Tread}
use p.Messages.Payload.{Twrite}
use p.Handlers.{done, failed, panicked}
use p.Handlers.State.{ConnState}
use p.Handlers.Refs.{dec_ref_within, release}
use p.Handlers.Names.{is_safe_name}
use p.Handlers.Transfer.{handle_tread, handle_twrite}
use p.Handlers.Xattr.{clunk_handle_xattr}
use p.Handlers.Dispatch.{handler, handle, new_err}
use p.Handlers.Owned.Enough.{release_ends}
use p.Handlers.Owned.Handled.{handle-Reached, serve, serve-open}
use p.Handlers.Refusals.UnknownFid.{handle-unknown_fid}
use p.Handlers.Refusals.UnsafeName.{handle-unsafe_name}
use p.Handlers.Directories.{handle-closed_directory}
use p.Handlers.Permissions.{handle_tread-file, handle_twrite-file}
use p.Handlers.Xattrs.Set.{written, clunk_handle_xattr-written}
use p.Handlers.Requests.{
  Serving, starting, waiting, receiving, got_message, in_handler, spawned, arrives, locks, receives,
  begins, opened, Served, opens, moves,
}
use p.Handlers.Requests.Answers.{total, is_receiving, can_receive, owes, Served-answers}
use p.Examples.Fids.{inserted, inserted-Reached, attached-Reached}
use p.Examples.Handlers.{keeping, conn}

-- Removing a directory that is not empty.
extract_errno-of_wrapped_example :
    (extract_errno (wrapped 2 (errno enotempty)) ≡ enotempty)
    × (extract_errno (wrapped 2 (syscall_errno enotempty)) ≡ eexist)
    × (extract_errno (join (wrap other) eof) ≡ eio)
extract_errno-of_wrapped_example = extract_errno-of_wrapped 2 enotempty (join (wrap other) eof) refl

-- A handler that holds the reference of an open file.
abbrev holding : ConnState (List (List ℕ))
holding = record (conn true mode_regular 2) { server = inserted }

release_ends_example : dec_ref_within keeping (suc 1 + 3) 0 holding ≡ release keeping 0 holding
release_ends_example = release_ends keeping 0 3 [] [] holding inserted-Reached

abbrev read_two : Tread
read_two = record { fid = 1; offset = 0; count = 2 }

abbrev file : ConnState (List (List ℕ))
file = conn true mode_regular 2

handle-Reached_example :
    (more : List ℕ) × Reached (
      state
        (handle keeping (Message.tread read_two) file).1.server
        (more ++ [])
        (handle keeping (Message.tread read_two) file).1.made)
    × (((handler keeping (Message.tread read_two) file).0 ≢ panicked) → more ≡ [])
handle-Reached_example =
    handle-Reached keeping (Message.tread read_two) file [] (λ e. e) attached-Reached

abbrev asks_once : List Message
asks_once = Message.tgetattr (record { fid = 1; attr_mask = zero_attr_mask }) ∷ []

found_after : find_fid 1 (serve keeping asks_once file).server.fids ≡ some 0
unfolding handle handler make_ref insert_fid inc_ref dec_ref lookup_fid
found_after = refl

serve-open_example :
    (0 < ((serve keeping asks_once file).server.fid_refs 0).refs)
    × (count 0 (serve keeping asks_once file).server.closed ≡ 0)
    × (count 0 (serve keeping asks_once file).server.closed ≤ 1)
serve-open_example =
    serve-open keeping asks_once file [] 1 0 0 ((λ e. e), tt) attached-Reached found_after

handle-unknown_fid_example :
    handle keeping (Message.tread (record { fid = 9; offset = 0; count = 2 })) file
    ≡ (new_err (errno ebadf), file)
unfolding make_ref insert_fid inc_ref dec_ref
handle-unknown_fid_example =
    handle-unknown_fid keeping (Message.tread (record { fid = 9; offset = 0; count = 2 })) 9 file
      refl refl refl

-- The name "..", and the name "a".
abbrev make_parent : Message
make_parent =
    Message.tmkdir (record { directory = 1; name = 46 ∷ 46 ∷ []; permissions = 0; gid = 0 })

abbrev make_a : Message
make_a = Message.tmkdir (record { directory = 1; name = 97 ∷ []; permissions = 0; gid = 0 })

handle-unsafe_name_example : handle keeping make_parent file ≡ (new_err (errno einval), file)
unfolding is_safe_name
handle-unsafe_name_example = handle-unsafe_name keeping make_parent file refl

abbrev open_directory : ConnState (List (List ℕ))
open_directory = conn true mode_directory 0

handle-closed_directory_example :
    handle keeping make_a open_directory ≡ (new_err (errno einval), open_directory)
unfolding is_safe_name make_ref insert_fid inc_ref dec_ref is_dir
handle-closed_directory_example =
    handle-closed_directory keeping make_a 1 (97 ∷ []) 0 open_directory refl refl refl (omega arith)
      refl

abbrev three_bytes : Txattrcreate
three_bytes = record { fid = 1; name = 117 ∷ []; attr_size = 3; flags = 0 }

abbrev two_chunks : List (List ℕ)
two_chunks = (1 ∷ 2 ∷ []) ∷ (3 ∷ []) ∷ []

clunk_handle_xattr-written_example :
    clunk_handle_xattr keeping 1 (written keeping three_bytes two_chunks file) ≡ (
      done tt,
      record (written keeping three_bytes two_chunks file) { files = (1 ∷ 2 ∷ 3 ∷ []) ∷ [] },
    )
unfolding make_ref insert_fid inc_ref dec_ref
clunk_handle_xattr-written_example =
    clunk_handle_xattr-written keeping three_bytes 0 two_chunks file refl (omega arith) refl
      (omega arith) (omega arith) (omega arith)

handle_tread-file_example :
    handle_tread keeping read_two file ≡ (done (record { content = 1 ∷ 2 ∷ [] }), file)
unfolding make_ref insert_fid inc_ref dec_ref open_mode
handle_tread-file_example = handle_tread-file keeping read_two 0 file refl (omega arith) refl

abbrev write_one : Twrite
write_one = record { fid = 1; offset = 0; content = 9 ∷ [] }

-- The file is open to read only.
handle_twrite-file_example :
    handle_twrite keeping write_one (conn true mode_regular 0)
    ≡ (failed (errno eperm), conn true mode_regular 0)
unfolding make_ref insert_fid inc_ref dec_ref open_mode
handle_twrite-file_example =
    handle_twrite-file keeping write_one 0 (conn true mode_regular 0) refl (omega arith) refl

mode_from_os-os_mode_example : mode_from_os (os_mode (mode_directory + 493)) ≡ mode_directory + 493
mode_from_os-os_mode_example = mode_from_os-os_mode directory 493 (omega arith)

abbrev one_tag : Tags
one_tag = record { active = (5, 0) ∷ []; channels = 1; closed = [] }

one_tag-TagsReached : TagsReached (handling one_tag (5 ∷ []))
unfolding start_tag started
one_tag-TagsReached =
    go_on (handling no_tags []) (handling one_tag (5 ∷ [])) begin (starts no_tags one_tag [] 5 refl)

clear_tag-frees_example :
    (ch : ℕ) × (s' : Tags) × (clear_tag 5 one_tag ≡ some s')
    × (count 5 [] ≡ 0)
    × (wait_tag 5 one_tag ≡ some ch)
    × (member ◌==◌ ch [] ≡ false)
    × (member ◌==◌ ch s'.closed ≡ true)
    × (wait_tag 5 s' ≡ none)
    × ((start_tag 5 s').0 ≡ true)
clear_tag-frees_example = clear_tag-frees one_tag [] [] 5 one_tag-TagsReached

abbrev read_file_two : Message
read_file_two = Message.tread read_two

-- A connection that received one request, of tag 5, and whose goroutine handles it.
abbrev counted : Serving (List (List ℕ))
counted = record (opened file) { recv_idle = 1 }

abbrev locked : Serving (List (List ℕ))
locked = record (opened file) { recv_held = true }

abbrev busy : Serving (List (List ℕ))
busy = record (opened file) { tags = (start_tag 5 no_tags).1; accepted = 5 ∷ [] }

busy-Served : Served keeping busy (in_handler 5 read_file_two ∷ starting ∷ [])
unfolding start_tag started
busy-Served =
    let arrived =
      moves (opened file) counted [] starting (waiting ∷ []) [] (opens file)
        (arrives (opened file)) in
    let held =
      moves counted locked [] waiting (receiving ∷ []) [] arrived (locks counted 0 refl refl) in
    let got =
      moves locked (opened file) [] receiving (got_message 5 read_file_two ∷ spawned 0) [] held
        (receives locked 5 read_file_two refl) in
    moves (opened file) busy [] (got_message 5 read_file_two) (in_handler 5 read_file_two ∷ [])
      (starting ∷ []) got (begins (opened file) 5 read_file_two refl)

Served-answers_example :
    (false ≡ false → 0 < total can_receive (in_handler 5 read_file_two ∷ starting ∷ []))
    × (total is_receiving (in_handler 5 read_file_two ∷ starting ∷ []) ≤ 1)
    × ((t : ℕ)
        → count t (5 ∷ [])
          ≡ count t [] + total (owes t) (in_handler 5 read_file_two ∷ starting ∷ []))
Served-answers_example =
    Served-answers keeping busy (in_handler 5 read_file_two ∷ starting ∷ []) busy-Served
