-- ===== src/Transfer/Network/Probe.antt =====
-- What the probe server answers is what the sender reads.
use vnt_gui_dev.Prelude.{
  ℕ, ◌<◌, ◌≡◌, refl, sym, ◌∙◌, ap, subst, true, Option, none, some, List, [], ◌∷◌, ◌++◌, ltb, arith,
  All, ok, append_assoc,
}
use vnt_gui_dev.Prelude.Decimal.{
  decimal, NonEmpty, decimal-NonEmpty, decimal_is_digits, parse_u16-decimal,
}
use vnt_gui_dev.Prelude.Text.{
  trim_start, trim, split, IsPlain, split_at, split_last, digits_are-IsPlain, trim_end_digits,
  trim_end_append,
}
use vnt_gui_dev.Transfer.Network.{
  probe_magic, probe_prefix, ProbeInfo, probe_reply, answer_probe, with_parts, read_reply, probe,
}

-- A reply that arrives is text.
abbrev pub as_text : Option (List ℕ) → Option (Option (List ℕ))
as_text none = none
as_text (some reply) = some (some reply)

-- The colons stand with what is before them.
abbrev before_last : List ℕ → List ℕ → List ℕ
before_last xs ys = xs ++ b':' ∷ (ys ++ b':' ∷ [])

regrouped : (xs ys zs : List ℕ) → xs ++ b':' ∷ (ys ++ b':' ∷ zs) ≡ before_last xs ys ++ zs
regrouped xs ys zs = sym (
    append_assoc xs (b':' ∷ (ys ++ b':' ∷ [])) zs
    ∙ ap (λ r. xs ++ b':' ∷ r) (append_assoc ys (b':' ∷ []) zs))

module _ {NodeId : Type 0} (node_text : NodeId → List ℕ) (node_of : List ℕ → Option NodeId) where
  abbrev body : ProbeInfo NodeId → List ℕ
  body info =
      node_text info.node_id ++ b':' ∷ (decimal info.quic_port ++ b':' ∷ decimal info.tcp_port)

  trimmed :
      (info : ProbeInfo NodeId) → trim (probe_reply node_text info) ≡ probe_prefix ++ body info
  unfolding trim probe_reply trim_start
  trimmed info =
      let front = probe_prefix ++ before_last (node_text info.node_id) (decimal info.quic_port) in
      let port = decimal info.tcp_port in
      let digits = trim_end_digits port (decimal_is_digits info.tcp_port) in
      ap (λ r. trim (probe_prefix ++ r))
        (regrouped (node_text info.node_id) (decimal info.quic_port) (port ++ 10 ∷ []))
      ∙ trim_end_append front (port ++ 10 ∷ [])
          (subst NonEmpty (sym digits) (decimal-NonEmpty info.tcp_port))
      ∙ ap (λ r. front ++ r) digits
      ∙ ap (λ r. probe_prefix ++ r)
          (sym (regrouped (node_text info.node_id) (decimal info.quic_port) port))

  body_parts :
      (info : ProbeInfo NodeId)
      → All IsPlain (node_text info.node_id)
      → split (body info)
        ≡ node_text info.node_id ∷ decimal info.quic_port ∷ decimal info.tcp_port ∷ []
  body_parts info plain =
      split_at (node_text info.node_id) _ plain
      ∙ ap (λ ps. node_text info.node_id ∷ ps)
          (split_at (decimal info.quic_port) _
              (digits_are-IsPlain _ (decimal_is_digits info.quic_port))
            ∙ ap (λ ps. decimal info.quic_port ∷ ps)
                (split_last (decimal info.tcp_port)
                  (digits_are-IsPlain _ (decimal_is_digits info.tcp_port))))

  -- If the text of a node id has no colon and reads back as the node id, the QUIC port is a nonzero
  -- u16 and the TCP port a u16, then a probe that is answered gives the sender the node id and the two
  -- ports of the receiver.
  pub probe_learns_identity :
      ((n : NodeId) → node_of (node_text n) ≡ some n)
      → (info : ProbeInfo NodeId) → All IsPlain (node_text info.node_id)
      → 0 < info.quic_port
      → info.quic_port < 65536
      → info.tcp_port < 65536
      → probe node_of (as_text (answer_probe node_text info probe_magic)) ≡ ok info
  unfolding probe read_reply answer_probe
  probe_learns_identity inverse info plain positive quic tcp =
      let kept : ltb 0 info.quic_port ≡ true = ground arith in
      rw (trimmed info) (
        ap (λ ps. with_parts node_of ps) (body_parts info plain)
        ∙ rw
            (
              inverse info.node_id,
              parse_u16-decimal info.quic_port quic,
              parse_u16-decimal info.tcp_port tcp,
              kept,
            )
            refl)
