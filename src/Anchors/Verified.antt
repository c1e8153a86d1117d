-- ===== src/Anchors/Verified.antt =====
-- What a match of verify_anchor in anchor_logger.py tells of the audit log.
use genesis_agents.Base.{◌≡◌, String, Option, none, some}
use genesis_agents.Anchors.Daily.{Anchor}

-- The anchor that was found has the root.
abbrev pub HasRoot : String → Option Anchor → Type 0
HasRoot root none = ⊥
HasRoot root (some a) = a.root ≡ root
