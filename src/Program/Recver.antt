-- ===== src/Program/Recver.antt =====
-- `work` of src/recver.cc at its wait in __wrap_read.
use i_tcp.Common.{
  ℕ, ◌+◌, ◌≤◌, ◌≡◌, refl, ◌∙◌, ap, false, none, some, List, ◌++◌, length, arith, inl, inr, ltb,
  Option-cases,
}
use i_tcp.Dict.{find, nat_ordered}
use i_tcp.Tcp.Types.{Buffer, buf_size, slice}
use i_tcp.Tcp.Buffers.{copy_out_fits, store_below}
use i_tcp.Tcp.Data.{my_read}
use i_tcp.Tcp.ReadWrite.{slice-cong, slice-store, slice-append}
use i_tcp.Tcp.Kernel.{Kernel}
use i_tcp.Tcp.Peers.{Peers}
use i_tcp.Tcp.Transfer.{Delivered}
use i_tcp.Socket.{put_socket, wrap_read}
use i_tcp.Program.{reading, read_size, recver_resume}
use i_tcp.Program.Phases.{half, whole, first, both}

-- The receiver never gets behind its read.
pub recver_waits : (k : Kernel) (fd connfd : ℕ) → recver_resume k fd connfd reading ≡ none
unfolding recver_resume
recver_waits k fd connfd = elim (Option-cases (wrap_read k connfd read_size)) [
  | inl nothing ↦ rw nothing refl
  | inr (_, got) ↦ rw got refl
]

module _ (data' : Buffer) (file : List ℕ) (fits : whole data' file ≤ buf_size)
    (size : length file ≡ 1001) where
  -- __wrap_read of 2002 bytes, when all are there.
  my_reads_all :
      (p : Peers)
      → Delivered (both data' file) (whole data' file) p
      → p.server.readp ≡ 0
      → my_read p.server 2002
        ≡ some (file ++ file, record p.server { readp = p.server.readp + 2002 })
  unfolding my_read
  my_reads_all p v start =
      let full : p.server.sizep ≡ whole data' file = v.sync.server_size in
      let agree = v.sync.agree in
      let enough : ltb p.server.sizep (p.server.readp + 2002) ≡ false = ground arith in
      let inside : p.server.readp + 2002 ≤ buf_size = omega arith in
      let all : 2002 ≡ length file + length file = omega arith in
      let same : slice p.server.databuf 0 2002 ≡ slice (both data' file) 0 2002 =
        slice-cong p.server.databuf (both data' file) 0 2002
          (λ i above high. agree i (omega arith)) in
      let old : slice (both data' file) 0 (length file) ≡ slice (first data' file) 0 (length file) =
        slice-cong (both data' file) (first data' file) 0 (length file)
          (λ i above high. store_below (first data' file) (half data' file) file i (omega arith)) in
      let got : slice p.server.databuf p.server.readp 2002 ≡ file ++ file =
        ap (λ off. slice p.server.databuf off 2002) start
        ∙ same
        ∙ ap (slice (both data' file) 0) all
        ∙ slice-append (both data' file) 0 (length file) (length file)
        ∙ rw (old, slice-store data' 0 file, slice-store (first data' file) (half data' file) file)
            refl in
      rw (enough, copy_out_fits p.server.databuf p.server.readp 2002 inside, got) refl

  -- The same for a kernel.
  pub reads_all :
      (k : Kernel) (connfd : ℕ) (p : Peers)
      → find connfd k.socket_set ≡ some p.server
      → Delivered (both data' file) (whole data' file) p
      → p.server.readp ≡ 0
      → wrap_read k connfd read_size
        ≡ some
            (file ++ file, put_socket k connfd (record p.server { readp = p.server.readp + 2002 }))
  unfolding wrap_read
  reads_all k connfd p at v start = rw (at, my_reads_all p v start) refl
