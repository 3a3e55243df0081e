-- ===== src/Vfs/Ownership/History.antt =====
-- No history of calls meets a fault or breaks the invariant.
use mazuki_os.Base.{
  ℕ, zero, suc, ◌≡◌, refl, ap, neg, pos, List, [], ◌∷◌, Option, some, none, ℤ, arith, length,
  replicate, get_elem?-replicate,
}
use mazuki_os.Alloc.{Heap, alloc, first_fit, initialize, align4, carve}
use mazuki_os.Alloc.Tiling.{IsTiled}
use mazuki_os.Vfs.State.{
  Vfs, File, Mountpoint, vfs_init, zeroed_vfs, console, closed_file, pipe_count, unix_socket_count,
  inet_socket_count, zero_pipe, zero_unix_socket, zero_inet_socket,
}
use mazuki_os.Vfs.Pipe.{vfs_pipe}
use mazuki_os.Vfs.Inet.{nothing_received, inet_bind, inet_connect, inet_sendto, inet_recvfrom}
use mazuki_os.Vfs.Unix.{unix_accept, unix_bind, unix_listen, unix_connect, unix_send, unix_recv}
use mazuki_os.Vfs.Calls.{
  inet_send_peer, vfs_socket, vfs_socket_bind, vfs_socket_listen, vfs_socket_connect,
  vfs_socket_accept, vfs_socket_send, vfs_socket_sendto, vfs_socket_recv, vfs_socket_recvfrom,
}
use mazuki_os.Vfs.Requests.{
  Request, pipe, socket, bind, listen, connect, accept, send, sendto, recv, recvfrom, close,
  perform, serve,
}
use mazuki_os.Vfs.Ownership.Refs.{IsSound, AllFit, refs}
use mazuki_os.Vfs.Ownership.Pipes.{vfs_pipe-IsSound}
use mazuki_os.Vfs.Ownership.Calls.{vfs_socket-IsSound}
use mazuki_os.Vfs.Ownership.Accept.{unix_accept-IsSafe}
use mazuki_os.Vfs.Ownership.Close.{vfs_close-IsSafe}
use mazuki_os.Vfs.Ownership.OnSocket.{
  IsSafe, on_socket-IsSafe, inet_bind-IsSound, inet_connect-IsSound, inet_send_peer-IsSound,
  inet_sendto-IsSound, inet_recvfrom-IsSound, unix_bind-IsSound, unix_listen-IsSound,
  unix_connect-IsSound, unix_send-IsSound, unix_recv-IsSound,
}

-- A step that cannot fault.
returns : {A : Type 0} (r : Vfs × A) → IsSound r.0 → IsSafe (some r)
returns r v = (r.0, r.1, refl, v)

recv-IsSafe : (fd : ℤ) (size : ℕ) (s : Vfs) → IsSound s → IsSafe (vfs_socket_recv fd size s)
unfolding vfs_socket_recv
recv-IsSafe fd size s v =
    on_socket-IsSafe (neg 9, nothing_received)
      (λ n j x s. let (s', r, got) = inet_recvfrom j x size none s in some (s', (r, got)))
      (λ n j x s.
        let (s', bytes) = unix_recv j x size s in
        some (s', (pos (length bytes), record { bytes = bytes; source = none })))
      s v (λ n j x. (_, _, refl, inet_recvfrom-IsSound j x size none s v))
      (λ n j x. (_, _, refl, unix_recv-IsSound j x size s v)) fd

recvfrom-IsSafe :
    (fd : ℤ) (size : ℕ) (room : Option ℕ) (s : Vfs)
    → IsSound s
    → IsSafe (vfs_socket_recvfrom fd size room s)
unfolding vfs_socket_recvfrom
recvfrom-IsSafe fd size room s v =
    on_socket-IsSafe (neg 9, nothing_received)
      (λ n j x s. let (s', r, got) = inet_recvfrom j x size room s in some (s', (r, got)))
      (λ n j x s. some (s, (neg 9, nothing_received))) s v
      (λ n j x. (_, _, refl, inet_recvfrom-IsSound j x size room s v)) (λ n j x. (_, _, refl, v)) fd

-- Every call returns, with a result for the caller, and keeps the invariant.
perform-IsSafe : (r : Request) (s : Vfs) → IsSound s → IsSafe (perform r s)
unfolding perform vfs_socket_bind vfs_socket_listen vfs_socket_connect vfs_socket_accept
    vfs_socket_send vfs_socket_sendto
perform-IsSafe pipe s v = ((vfs_pipe s).0, (vfs_pipe s).1, refl, vfs_pipe-IsSound s v)
perform-IsSafe (socket domain type protocol) s v =
    returns (vfs_socket domain type protocol s) (vfs_socket-IsSound domain type protocol s v)
perform-IsSafe (bind fd address size) s v =
    on_socket-IsSafe (neg 9) (λ n j x s. some (inet_bind j address size s))
      (λ n j x s. some (unix_bind j address size s)) s v
      (λ n j x. returns _ (inet_bind-IsSound j address size s v))
      (λ n j x. returns _ (unix_bind-IsSound j address size s v)) fd
perform-IsSafe (listen fd) s v =
    on_socket-IsSafe (neg 9) (λ n j x s. some (s, neg 9)) (λ n j x s. some (unix_listen j x s)) s v
      (λ n j x. returns (s, neg 9) v) (λ n j x. returns _ (unix_listen-IsSound j x s v)) fd
perform-IsSafe (connect fd address size) s v =
    on_socket-IsSafe (neg 9) (λ n j x s. some (inet_connect n j address size s))
      (λ n j x s. some (unix_connect n j address size s)) s v
      (λ n j x. returns _ (inet_connect-IsSound n j address size s v))
      (λ n j x. returns _ (unix_connect-IsSound n j address size s v)) fd
perform-IsSafe (accept fd) s v =
    on_socket-IsSafe (neg 9) (λ n j x s. some (s, neg 9)) (λ n j x s. unix_accept j x s) s v
      (λ n j x. returns (s, neg 9) v) (λ n j x. unix_accept-IsSafe j x s v) fd
perform-IsSafe (send fd buffer) s v =
    on_socket-IsSafe (neg 9) (λ n j x s. some (inet_send_peer x buffer s))
      (λ n j x s. some (unix_send x buffer s)) s v
      (λ n j x. returns _ (inet_send_peer-IsSound x buffer s v))
      (λ n j x. returns _ (unix_send-IsSound x buffer s v)) fd
perform-IsSafe (sendto fd buffer address size) s v =
    on_socket-IsSafe (neg 9) (λ n j x s. some (inet_sendto n j x buffer address size s))
      (λ n j x s. some (s, neg 9)) s v
      (λ n j x. returns _ (inet_sendto-IsSound n j x buffer address size s v))
      (λ n j x. returns (s, neg 9) v) fd
perform-IsSafe (recv fd size) s v =
    let (s', (r, got), e, sound) = recv-IsSafe fd size s v in (s', r, rw (e, perform) refl, sound)
perform-IsSafe (recvfrom fd size room) s v =
    let (s', (r, got), e, sound) = recvfrom-IsSafe fd size room s v in
    (s', r, rw (e, perform) refl, sound)
perform-IsSafe (close fd) s v = vfs_close-IsSafe fd s v

-- Any sequence of calls on a sound state is served to its end, each call with a result, and the
-- state it leaves is sound.
pub serve-IsSafe :
    (rs : List Request) (s : Vfs)
    → IsSound s
    → (s' : Vfs) × (results : List ℤ) × (serve rs s ≡ some (s', results))
      × IsSound s'
      × (length results ≡ length rs)
unfolding serve
serve-IsSafe [] s v = (s, [], refl, v, refl)
serve-IsSafe (r ∷ rs) s v =
    let (s', a, e, sound) = perform-IsSafe r s v in
    let (s'', results, es, sound', all) = serve-IsSafe rs s' sound in
    (s'', a ∷ results, rw (e, serve) (rw (es, serve) refl), sound', ap suc all)

-- The descriptors once `vfs_init` has set them.
abbrev booted : List File
booted = console ∷ console ∷ console ∷ replicate 29 closed_file

booted-AllFit : AllFit booted
booted-AllFit zero f e = ground arith
booted-AllFit (suc zero) f e = ground arith
booted-AllFit (suc (suc zero)) f e = ground arith
booted-AllFit (suc (suc (suc i))) f e = rw (← get_elem?-replicate 29 closed_file i e) refl

module _ (mounts : List Mountpoint) (h : Heap) (t : IsTiled h) where
  abbrev at_boot : Vfs
  at_boot = record zeroed_vfs { fd_table = booted; mount_list = mounts; heap = h }

  at_boot-IsSound : IsSound at_boot
  unfolding zeroed_vfs refs
  at_boot-IsSound = record {
    fd_size = refl;
    pipe_size_lem = refl;
    unix_size = refl;
    inet_size = refl;
    fit = booted-AllFit;
    readers = λ j p e. rw (← get_elem?-replicate pipe_count zero_pipe j e) refl;
    writers = λ j p e. rw (← get_elem?-replicate pipe_count zero_pipe j e) refl;
    held = λ j p e. rw (← get_elem?-replicate pipe_count zero_pipe j e) (λ u. absurd (cc));
    unix = λ j p e. rw (← get_elem?-replicate unix_socket_count zero_unix_socket j e) (omega arith);
    inet = λ j p e. rw (← get_elem?-replicate inet_socket_count zero_inet_socket j e) refl;
    nodes = λ a. omega arith;
    tiled = t;
  }

pub vfs_init-IsSound : IsSound (vfs_init zeroed_vfs)
unfolding vfs_init zeroed_vfs alloc first_fit initialize align4 carve
vfs_init-IsSound =
    at_boot-IsSound (vfs_init zeroed_vfs).mount_list (vfs_init zeroed_vfs).heap
      (refl, (refl, refl, (refl, refl, (refl, refl, refl))))
