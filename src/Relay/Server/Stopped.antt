-- ===== src/Relay/Server/Stopped.antt =====
-- What is left of the relay after `Stop`.
use atlax.Base.{◌||◌, Bool, false, Bytes, bytes_eq, bytes_eq_inst, List, [], ◌∷◌}
use atlax.Relay.Registry.{Call, unregisters}
use atlax.Relay.Server.{Relay}

unregistrations : List Bytes → List Call
unregistrations [] = []
unregistrations (c ∷ cs) = unregisters c ∷ unregistrations cs

abbrev pub is_listed : Bytes → List Bytes → Bool
is_listed c [] = false
is_listed c (d ∷ ds) = bytes_eq d c || is_listed c ds
