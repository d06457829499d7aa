-- ===== src/Server/Answers.antt =====
-- server.c: what an acknowledgement does to the window.
use cpe464_program.Common.{
  Bool-cases, List, Returns, Returns-and_then, Returns-trivial, get_elem?, inl, inr, or_undefined,
  refl, ℕ, ◌%◌, ◌+◌, ◌==◌, ◌^◌, ◌≡◌,
}
use cpe464_program.Checksum.{in_cksum}
use cpe464_program.Net.{safe_sendto}
use cpe464_program.Packet.{byte_at, flag_resent_data, flag_rr, flag_srej, load_net32}
use cpe464_program.Server.{Server, entry_payload, obey, process_packet, rem_unsigned, resend_packet}
use cpe464_program.Server.Blocks.{IsServing, IsServing-net}

module _ (chunk_size : ℕ) (file : List ℕ) where
  -- The window invariant, with the current number at `n`.
  abbrev Serves {ℓ} : {A : Type ℓ} → ℕ → A × Server → Type 0
  Serves n r = IsServing chunk_size file r.1 × (r.1.window.current ≡ n)

  pub IsServing-move :
      (s : Server) (lowest highest : ℕ)
      → IsServing chunk_size file s
      → IsServing chunk_size file
          (record s { window = record s.window { lowest = lowest; highest = highest } })
  IsServing-move s lowest highest v = record {
    shaped = record {
      nonempty = v.shaped.nonempty;
      small = v.shaped.small;
      count = v.shaped.count;
      blocks = v.shaped.blocks;
    };
    chunk = v.chunk;
    rest = v.rest;
    stored = v.stored;
  }

  pub resend_packet-IsServing :
      (k flag : ℕ) (s : Server)
      → IsServing chunk_size file s
      → Returns
          (λ r. IsServing chunk_size file r.1 × (r.1.window.current ≡ s.window.current))
          (resend_packet k flag s)
  unfolding resend_packet safe_sendto
  resend_packet-IsServing k flag s v =
      let kept = Serves s.window.current in
      Returns-and_then (λ i. Unit {0}) kept (or_undefined (rem_unsigned k s.window.size)) _
        (Returns-trivial (or_undefined (rem_unsigned k s.window.size)))
        (λ i u.
          Returns-and_then (λ e. Unit {0}) kept (or_undefined (get_elem? s.window.entries i)) _
            (Returns-trivial (or_undefined (get_elem? s.window.entries i)))
            (λ e u'.
              Returns-and_then (λ p. Unit {0}) kept (entry_payload e e.data_len) _
                (Returns-trivial (entry_payload e e.data_len))
                (λ p u''. (IsServing-net chunk_size file s _ v, refl))))

  obey-IsServing :
      (flag seq_num : ℕ) (s : Server)
      → IsServing chunk_size file s
      → Returns (Serves s.window.current) (obey flag seq_num s)
  unfolding obey
  obey-IsServing flag seq_num s v = elim (Bool-cases (flag == flag_rr)) [
    | inl moved ↦ rw moved (IsServing-move s seq_num ((seq_num + s.window.size) % 2 ^ 32) v, refl)
    | inr other ↦ elim (Bool-cases (flag == flag_srej)) [
      | inl asked ↦ rw (other, asked) (resend_packet-IsServing seq_num flag_resent_data s v)
      | inr neither ↦ rw (other, neither) (v, refl)
    ]
  ]

  -- Whatever packet arrives, if process_rr_srej_eof returns, the window invariant of the server
  -- holds as before and the current number stays.
  pub process_packet-IsServing :
      (stack : ℕ → ℕ) (packet : List ℕ) (s : Server)
      → IsServing chunk_size file s
      → Returns
          (λ r. IsServing chunk_size file r.1 × (r.1.window.current ≡ s.window.current))
          (process_packet stack packet s)
  unfolding process_packet
  process_packet-IsServing stack packet s v = elim (Bool-cases (in_cksum packet == 0)) [
    | inl good ↦ rw good (
        Returns-and_then (Serves s.window.current) (Serves s.window.current)
          (obey (byte_at stack packet 6) (load_net32 stack packet 7) s) _
          (obey-IsServing (byte_at stack packet 6) (load_net32 stack packet 7) s v) (λ r h. h))
    | inr bad ↦ rw bad (
        Returns-and_then (Serves s.window.current) (Serves s.window.current)
          (resend_packet s.window.lowest flag_resent_data s) _
          (resend_packet-IsServing s.window.lowest flag_resent_data s v) (λ r h. h))
  ]
