-- ===== src/Requests/Tests.antt =====
-- connection.go: a request with a context behind another one, on a new connection.
use go_tarantool.Common.{◌≡◌, refl, true, false, none, some}
use go_tarantool.Requests.{
  Table, conn_connected, conn_closed, context_done, connection_closed, new_table, new_future,
  next_request_id,
}
use go_tarantool.Requests.Lookup.{IsTable, Answered, get_future_imp-new_future}

abbrev busy : Table
busy = (new_future false (some false) conn_connected 7 (new_table 4)).2

busy-IsTable : IsTable busy
unfolding new_future
busy-IsTable = record { even = refl; odd = refl }

get_future_imp-new_future_example :
    Answered none 8 5 busy (new_future false (some false) conn_connected 8 busy)
unfolding new_future next_request_id
get_future_imp-new_future_example =
    get_future_imp-new_future false (some false) conn_connected 8 busy busy-IsTable tt

-- Behind the close of the connection, and with a context that is done.
busy-refused :
    ((new_future false none conn_closed 9 busy).0 ≡ some connection_closed)
    × ((new_future false (some true) conn_connected 9 busy).0 ≡ some context_done)
unfolding new_future next_request_id
busy-refused = (refl, refl)
