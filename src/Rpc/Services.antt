-- ===== src/Rpc/Services.antt =====
-- The RPCs that client and servers register with Mercury, which matches them by name: the functions
-- that end in `_register` in src/mthvac_comm.cpp, and `hvac_client_comm_register_rpc` of
-- src/mthvac_comm_client.cpp.
use mt_hvac.Base.{List, [], ◌∷◌, Text, text}

pub data Service : Type 0 where
  base_service open_service close_service seek_service print_stats_service : Service

-- hvac_trigger_srv_print_stats_rpc_register
abbrev pub print_stats_name : Text
print_stats_name = text "hvac_rpc_trigger_srv_print_stats"

unfoldable pub service_name : Service → Text
service_name base_service = text "hvac_base_rpc"
service_name open_service = text "hvac_open_rpc"
service_name close_service = text "hvac_close_rpc"
service_name seek_service = text "hvac_seek_rpc"
service_name print_stats_service = print_stats_name

-- hvac_client_comm_register_rpc: what the client registers, in order
unfoldable pub client_comm_register_rpc : List Service
client_comm_register_rpc =
    open_service ∷ base_service ∷ close_service ∷ seek_service ∷ print_stats_service ∷ []
