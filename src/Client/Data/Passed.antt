-- ===== src/Client/Data/Passed.antt =====
-- A chunk on its way through a client: `HandleDataMessage` of src/client/client.cpp takes it, and
-- `HandleRequestMessage` gives it to the partners that ask for it.
use tvpp_dev_base.ChunkUniqueId.{ChunkUniqueId}
use tvpp_dev_base.Request.{Request}
use tvpp_dev_base.Client.{Client}
