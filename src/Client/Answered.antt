-- ===== src/Client/Answered.antt =====
-- What the client prints after `founder store`.
use distft.File.Names.{NulFree}
use distft.Client.Control.{Client}

-- The messages of the client contain no zero byte.
abbrev pub Clean : {S : Type 0} → Client S → Type 0
Clean d = NulFree d.cmd_err × NulFree d.cmd_out
