-- ===== src/Ksim/Daemon/Deliver.antt =====
-- What the emulated readout of tools/ksim/main.c sees of the datagrams of the control socket.
use libkatherine.Base.{ℕ, zero, suc, ◌+◌, ◌-◌, ◌^◌, ◌==◌, ◌≤◌, ◌<◌, ◌≡◌, refl, ◌∙◌, arith}
use libkatherine.Base.{if◌then◌else◌, u64, List, [], ◌∷◌, length, take, false, true, Option, Text}
use libkatherine.Base.{eagain, ap}
use libkatherine.Udp.{Addr, Udp, Incoming, datagram, Outcome, refused, accepted, ok, err}
use libkatherine.Udp.{recv, recvfrom, recv_datagram, send_loop, send_exact, set_remote}
use libkatherine.Base.{drop, replicate, ◌&&◌, codes}
use libkatherine.Udp.Send.{take_all}
use libkatherine.Emu.Commands.{cmd_in}
use libkatherine.Emu.Feed.{feed}
use libkatherine.Ksim.Daemon.{
  Daemon, track_client, reply_to_self, deliver, send_stray_crd, take_datagram, drain, chunks_after,
  is_dropped,
}

-- The datagrams without the k-th of the 1024-byte chunks of a matrix among them, if there is one.
pub without_chunk : ℕ → List (List ℕ) → List (List ℕ)
without_chunk k [] = []
without_chunk k (bytes ∷ more) =
    let chunk = length bytes == 1024 in
    let rest = without_chunk (if chunk then k - 1 else k) more in
    if chunk && k == 1 then more else bytes ∷ rest

-- What sessions keep while they send.
record KeepsInbox (u u' : Udp) : Type 0 where
  inbox : u'.inbox ≡ u.inbox
  pinned : u'.remote_pinned ≡ u.remote_pinned

send_loop-KeepsInbox :
    (os : List Outcome) (rest : List ℕ) (u : Udp) → KeepsInbox u (send_loop os rest u).1
unfolding send_loop
send_loop-KeepsInbox [] rest u = ground arith
send_loop-KeepsInbox (refused e ∷ os) rest u = ground arith
send_loop-KeepsInbox (accepted n ∷ os) rest u =
    let u' = record u { outcomes = os; sent = (u.addr_remote, take n rest) ∷ u.sent } in
    ground (arith, send_loop-KeepsInbox os (drop n rest) u')

send_stray_crd-KeepsInbox : (u : Udp) → KeepsInbox u (send_stray_crd u)
unfolding send_stray_crd send_exact
send_stray_crd-KeepsInbox u = send_loop-KeepsInbox u.outcomes (replicate 8 0) u

-- What a datagram does to the readout, and what the rest of its handling keeps.
record Delivers (bytes : List ℕ) (d d' : Daemon) : Type 0 where
  session : KeepsInbox d.ctl_udp d'.ctl_udp
  options : d'.options ≡ d.options
  chunks : d'.px_chunks_seen ≡ chunks_after bytes d.px_chunks_seen
  readout : d'.emu ≡ (
      if is_dropped bytes d.options.drop_px_chunk d.px_chunks_seen
      then d.emu
      else (cmd_in bytes d.emu).1)

-- What the bookkeeping of addresses leaves alone.
record Keeps (d d' : Daemon) : Type 0 where
  session : KeepsInbox d.ctl_udp d'.ctl_udp
  options : d'.options ≡ d.options
  chunks : d'.px_chunks_seen ≡ d.px_chunks_seen
  readout : d'.emu ≡ d.emu

set_remote-KeepsInbox : (a : Option ℕ) (port : ℕ) (u : Udp) → KeepsInbox u (set_remote a port u).1
unfolding set_remote
set_remote-KeepsInbox a port u = ground arith

reply_to_self-Keeps :
    (inet_pton : Text → Option ℕ) (d : Daemon) → Keeps d (reply_to_self inet_pton d)
unfolding reply_to_self
reply_to_self-Keeps inet_pton d =
    ground
      (arith, set_remote-KeepsInbox (inet_pton (codes "127.0.0.1")) d.options.ctl_port d.ctl_udp)

track_client-Keeps : (inet_pton : Text → Option ℕ) (d : Daemon) → Keeps d (track_client inet_pton d)
unfolding track_client
track_client-Keeps inet_pton d = ground arith

take_datagram-Delivers :
    (inet_pton : Text → Option ℕ) (bytes : List ℕ) (d : Daemon)
    → Delivers bytes d (take_datagram inet_pton bytes d)
unfolding take_datagram deliver
take_datagram-Delivers inet_pton bytes d =
    let counted = record d { client_known = true; commands_seen = u64 (d.commands_seen + 1) } in
    let replied = reply_to_self inet_pton counted in
    let delivered = deliver bytes (track_client inet_pton replied) in
    ground (
      arith,
      send_stray_crd-KeepsInbox delivered.ctl_udp,
      track_client-Keeps inet_pton replied,
      reply_to_self-Keeps inet_pton counted,
    )

-- The datagrams that the socket holds, whoever sent them.
abbrev pub arrived : List (Addr × List ℕ) → List Incoming
arrived [] = []
arrived ((from, bytes) ∷ more) = datagram from bytes ∷ arrived more

abbrev pub payloads : List (Addr × List ℕ) → List (List ℕ)
payloads [] = []
payloads ((from, bytes) ∷ more) = bytes ∷ payloads more

-- Each of them fits the buffer.
abbrev pub AllFit : List (Addr × List ℕ) → Type 0
AllFit [] = Unit {0}
AllFit ((from, bytes) ∷ more) = (length bytes ≤ 2048) × AllFit more

next_datagram :
    (from : Addr) (bytes : List ℕ) (rest : List Incoming) (u : Udp)
    → length bytes ≤ 2048
    → u.remote_pinned ≡ false
    → u.inbox ≡ datagram from bytes ∷ rest
    → recv 2048 u ≡ (ok bytes, record u { inbox = rest; addr_remote = from })
unfolding recv recv_datagram recvfrom
next_datagram from bytes rest u fits unpinned e = ground (arith, take_all 2048 bytes fits)

idle_socket : (u : Udp) → u.remote_pinned ≡ false → u.inbox ≡ [] → recv 2048 u ≡ (err eagain, u)
unfolding recv recv_datagram recvfrom
idle_socket u unpinned e = ground arith

pub without_chunk_none : (xs : List (List ℕ)) → without_chunk 0 xs ≡ xs
unfolding without_chunk
without_chunk_none [] = refl
without_chunk_none (bytes ∷ xs) = ground (arith, without_chunk_none xs)

-- One datagram, ahead of what the rest of them does.
take_one :
    (bytes : List ℕ) (more : List (List ℕ)) (d d' : Daemon)
    → Delivers bytes d d'
    → d.px_chunks_seen + 1 < 2 ^ 64
    → feed (without_chunk (d'.options.drop_px_chunk - d'.px_chunks_seen) more) d'.emu
      ≡ feed (without_chunk (d.options.drop_px_chunk - d.px_chunks_seen) (bytes ∷ more)) d.emu
unfolding without_chunk feed
take_one bytes more d d' t h =
    ground (arith, t.options, t.chunks, t.readout, without_chunk_none more)

drain_none :
    (inet_pton : Text → Option ℕ) (left : ℕ) (d : Daemon)
    → d.ctl_udp.remote_pinned ≡ false
    → d.ctl_udp.inbox ≡ []
    → (drain inet_pton left d).emu ≡ d.emu
unfolding drain
drain_none inet_pton zero d unpinned e = refl
drain_none inet_pton (suc left) d unpinned e = ground (arith, idle_socket d.ctl_udp unpinned e)

drain_next :
    (inet_pton : Text → Option ℕ) (left : ℕ) (from : Addr) (bytes : List ℕ) (rest : List Incoming)
    (d : Daemon)
    → length bytes ≤ 2048
    → d.ctl_udp.remote_pinned ≡ false
    → d.ctl_udp.inbox ≡ datagram from bytes ∷ rest
    → drain inet_pton (suc left) d
      ≡ drain inet_pton left (
          take_datagram inet_pton bytes
            (record d { ctl_udp = record d.ctl_udp { inbox = rest; addr_remote = from } }))
unfolding drain
drain_next inet_pton left from bytes rest d fits unpinned e =
    ground (arith, next_datagram from bytes rest d.ctl_udp fits unpinned e)

chunks_le :
    (bytes : List ℕ) (seen n : ℕ) → seen + suc n < 2 ^ 64 → chunks_after bytes seen + n < 2 ^ 64
chunks_le bytes seen n h = ground arith

-- On an unpinned control socket that holds as many datagrams as one tick drains, or fewer, of 2048
-- bytes at most, where the count of the chunks does not pass 64 bits: the tick hands all of them to
-- the emulated readout, in the order in which they came and whoever sent them, but for one, if it is
-- among them: the 1024-byte datagram that is, counted from the start of the daemon, the one that
-- --drop-px-chunk names.
pub drain-feed :
    (inet_pton : Text → Option ℕ) (left : ℕ) (msgs : List (Addr × List ℕ)) (d : Daemon)
    → AllFit msgs
    → length msgs ≤ left
    → d.px_chunks_seen + length msgs < 2 ^ 64
    → d.ctl_udp.remote_pinned ≡ false
    → d.ctl_udp.inbox ≡ arrived msgs
    → (drain inet_pton left d).emu
      ≡ feed (without_chunk (d.options.drop_px_chunk - d.px_chunks_seen) (payloads msgs)) d.emu
unfolding without_chunk feed
drain-feed inet_pton left [] d fits enough small unpinned e = drain_none inet_pton left d unpinned e
drain-feed inet_pton zero (m ∷ msgs) d fits enough small unpinned e = absurd (omega arith)
drain-feed inet_pton (suc left) ((from, bytes) ∷ msgs) d fits enough small unpinned e =
    let heard = record d {
      ctl_udp = record d.ctl_udp { inbox = arrived msgs; addr_remote = from };
    } in
    let taken = take_datagram inet_pton bytes heard in
    let t = take_datagram-Delivers inet_pton bytes heard in
    let rest =
      drain-feed inet_pton left msgs taken fits.1 (omega arith)
        (rw t.chunks (chunks_le bytes d.px_chunks_seen (length msgs) small))
        (t.session.pinned ∙ unpinned) t.session.inbox in
    ap Daemon.emu (drain_next inet_pton left from bytes (arrived msgs) d fits.0 unpinned e)
    ∙ rest
    ∙ take_one bytes (payloads msgs) heard taken t (omega arith)
