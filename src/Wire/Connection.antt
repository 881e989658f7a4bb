-- ===== src/Wire/Connection.antt =====
-- phira-mp/phira-mp-common/src/lib.rs and command.rs: the two directions of a connection, with the
-- commands of the protocol.
use phira_mp_plus.Common.{◌≡◌, List, All}
use phira_mp_plus.Wire.Reader.{unexpected_eof}
use phira_mp_plus.Wire.Frame.{receive, send_all}
use phira_mp_plus.Wire.Frame.Stream.{Fits, receive-send_all}
use phira_mp_plus.Wire.Commands.Client.{ClientCommand, client_command_data}
use phira_mp_plus.Wire.Commands.Client.Laws.{client_command_data-Lawful}
use phira_mp_plus.Wire.Commands.Server.{ServerCommand, server_command_data}
use phira_mp_plus.Wire.Commands.Server.Laws.{server_command_data-Lawful}

-- Client commands within the bounds of their types, each of which fills at most 2 MiB, arrive all, in order
-- and unchanged; then the receiver waits for more.
pub client_commands-receive :
    (xs : List ClientCommand)
    → All (Fits client_command_data-Lawful) xs
    → receive client_command_data (send_all client_command_data xs) ≡ (xs, unexpected_eof)
client_commands-receive xs h = receive-send_all client_command_data-Lawful xs h

-- Server commands within the bounds of their types, each of which fills at most 2 MiB, arrive all, in order
-- and unchanged; then the receiver waits for more.
pub server_commands-receive :
    (xs : List ServerCommand)
    → All (Fits server_command_data-Lawful) xs
    → receive server_command_data (send_all server_command_data xs) ≡ (xs, unexpected_eof)
server_commands-receive xs h = receive-send_all server_command_data-Lawful xs h
