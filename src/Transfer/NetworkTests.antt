-- ===== src/Transfer/NetworkTests.antt =====
-- The probe at a concrete input: the text of a node id is the number's bytes.
use vnt_gui_dev.Prelude.{ℕ, ◌≡◌, refl, Option, none, some, List, [], ◌∷◌, arith, ok}
use vnt_gui_dev.Transfer.Network.{ProbeInfo, answer_probe, probe_magic, probe}
use vnt_gui_dev.Transfer.Network.Probe.{as_text, probe_learns_identity}

abbrev node_text : ℕ → List ℕ
node_text n = n ∷ []

abbrev node_of : List ℕ → Option ℕ
node_of [] = none
node_of (n ∷ ns) = some n

abbrev info : ProbeInfo ℕ
info = record { node_id = 97; quic_port = 34249; tcp_port = 34248 }

probe_learns_identity_example :
    probe node_of (as_text (answer_probe node_text info probe_magic)) ≡ ok info
probe_learns_identity_example =
    probe_learns_identity node_text node_of (λ n. refl) info (refl, tt) (omega arith) (omega arith)
      (omega arith)
