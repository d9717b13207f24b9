-- ===== src/ClientLib/Peers/Melted.antt =====
-- Pop returns nil after End, since every peer that is left in the channel is closed.
use snowflake.Common.{◌≡◌, true, false, none, ◌⊎◌}
use snowflake.ClientLib.Peers.{Peers, pop, nil}

-- The channel is not closed yet, or Pop returns nil and no Collect is at its send.
abbrev pub PopEnds : Peers → Type 0
PopEnds p = (p.chan_closed ≡ false) ⊎ (((pop p).0 ≡ nil) × (p.melted ≡ true) × (p.at_send ≡ none))
