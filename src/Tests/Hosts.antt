-- ===== src/Tests/Hosts.antt =====
-- Federated addresses at concrete inputs.
use dmail.Prelude.{◌<◌, ◌≡◌, ◌↔◌, length}
use dmail.Prelude.Bytes.{codes}
use dmail.Federation.{parse_federated_address}
use dmail.Federation.Addresses.{IsFederated, parse_federated_address_iff}

parse_federated_address_iff_example :
    ((0 < length (codes "al"))
      × (parse_federated_address (codes "al@b.eu") ≡ (codes "al", codes "b.eu")))
    ↔ IsFederated (codes "al@b.eu") (codes "al") (codes "b.eu")
parse_federated_address_iff_example =
    parse_federated_address_iff (codes "al@b.eu") (codes "al") (codes "b.eu")
