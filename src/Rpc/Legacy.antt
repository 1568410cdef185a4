-- ===== src/Rpc/Legacy.antt =====
-- The waits of an earlier version in src/mthvac_comm_client.cpp, which nothing calls any more.
use mt_hvac.Base.{ℤ, ◌>>◌, pure, false, minus_one}
use mt_hvac.Platform.{Platform}
use mt_hvac.Rpc.{Action, assert}

module _ (P : Platform) where
  -- hvac_client_block
  abbrev pub client_block : Action P (Unit {0})
  client_block = assert false

  -- hvac_read_block
  abbrev pub read_block : Action P ℤ
  read_block = assert false >> pure minus_one

  -- hvac_seek_block
  abbrev pub seek_block : Action P ℤ
  seek_block = assert false >> pure minus_one
