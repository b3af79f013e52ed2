-- ===== src/Lib.antt =====
-- A model of the UNO game server's rooms, and what its functions guarantee.
--
-- The program keeps rooms of players (src/game/room.h). A room that plays a game is a state machine
-- that a timer drives (`game_update`) and the players' requests move on: cards are dealt to all, then
-- to the dealer, a first card is chosen, and then the player under the cursor plays a card, takes
-- cards, or lets the time run out. The players get events, and a stater (src/game/stater.h) hears of
-- the same events to count the round's statistics.
--
-- Files and what they model:
--   Card, Card/Deck      src/game/card.h: the bit layout of a card, its tests, the card set
--   Stater/Types         src/game/stater.h, src/game/constants.h: the state of `GameStater`
--   Stater/Events        the calls of `call_stat_event` with the C++ types of their arguments
--   Stater/Handlers      src/game/stater.cpp: `on_game_start`, `on_player_left`, `on_card_deal`,
--                        `on_card_play` and the tracing of who let the winner win
--   Stater/Display       `get_stat`, `get_winner_stealer`, `on_player_win` with the table of awards
--   Stater/Awards        what `on_player_win` shows
--   Stater/Dispatch      `on_event`, which drops a call that is not invocable, and `call_stat_event`
--   Room/Types           src/game/room.h: `Room`, `Player`, the snapshots, the constants of room.cpp
--   Room/Random          src/game/helper.h
--   Room/Notify          `send_event`, `broadcast_event` and the events
--   Room/Cursor, Heap, Rules, Deal, Over, Play, Leave, Start
--                        src/game/room.cpp: `game_cursor_move`, `game_card_heap_deal`,
--                        `game_can_play_card`, `game_player_deal_card` and
--                        `game_player_report_no_uno`, `game_over`, `game_player_card_play`,
--                        `game_player_leave`, `game_start`
--   Room/Update          `game_update`: its children follow the game states
--   Room/Laws            the theorems, in modules named for what they prove
--   Session/Types        src/core/session.h: a session, the machine of its states, its clock
--   Session/Ssmgr        src/core/ssmgr.h, ssmgr.cpp: the vector of sessions, the table of users
--   Session/Emitter      src/core/EventEmitter.h, func_trait.h: events and signatures
--   Session/Laws         theorems on the tick and on a lost connection
--   Manager/Types, Answers, Guard
--                        `RoomManager`: its state, the answers with the codes of src/core/errc.h, and
--                        the guards that most requests start with
--   Manager/Create, Enter, Leave, Seats, Kick, Game, Presence, Update
--                        src/game/room.h, room.cpp: the requests of the clients, the listeners of
--                        `login` and `logout`, `game_dismiss` and `update`
--   Manager/Events       which listener hears which event
--   Manager/Laws         theorems on the requests: ids, guards, the invariant and what keeps it
--   Lobby                src/game/lobby.cpp, dbagent.h: login, the choice of a nick, the database's
--                        answers
--   Router               src/core/router.h, ssmgr.cpp: from a message to the function it names
--   Queue/ThreadQue, Threads, Fifo
--                        src/core/ThreadQue.h: the queue, the threads at it as a step relation, and
--                        the queue that the steps stand for
--   Queue/Background, Worker
--                        src/core/background.h, background.cpp: tasks and their callbacks
--   Account/Text, Tables, Users, Players
--                        src/sql/mysql.cpp, src/util/ssl.h: texts, the tables and the calls on them
--   Account/Agent        src/core/db.h, src/game/dbagent.h: the calls of the interface, and as tasks
--   Account/Laws         theorems on spelling, rows, the tables' invariant, working calls and calls
--                        that throw
--   Web/Types, Login, Register, Settings, Static
--                        src/core/server.cpp, server.h: the pages, their tasks and callbacks
--   Web/Laws             theorems on the pages with the tables behind them
--   Tests                a table with two players, sessions and a queue, and the theorems at them
--
-- Conventions. Code that changes a room takes and returns a `World`: the room, the state of the
-- random generators, the table of sessions, and the messages sent so far. A failed assertion, which
-- aborts the server, and an index outside a vector, which is undefined behaviour, are the two faults
-- of `Outcome`. Uids and counters are natural numbers; they stay far below the bounds of an `int`, so
-- their overflow is left out. The cursor, the direction, the timer, clocks and cards are integers. A
-- field that holds a uid or -1 is an option. The hash map of players is an association list in the
-- order in which it is walked. `std::sort`, which may leave equal scores in any order, is an
-- insertion sort. The random functions of the standard library are the parameter `Random`; theorems
-- that depend on them assume `IsRandom`: a shuffle permutes, and a draw stays in
-- its bounds. The loop that chooses the first card is bounded by its own counter, of which the model
-- makes its recursion: 101 cards may be put back.
--
-- `IsTable` says that a game can go on: everybody has a seat, the cursor is at one, all piles hold
-- cards only, a pending penalty lies on a draw card, whoever can be reported is in the room, and the
-- statistics have an entry for every player.
--
-- A request takes and returns a `Server`: the rooms by id, the next id, the sessions, and the packets
-- sent. It names its session by a handle, which stands for the shared pointer, and by the session's
-- uid; a session without one is refused by the test of its state. `IsServer` says that a server is
-- proper: in a room every player has one seat and nobody else has any, there are as many players as
-- it counts and no more than it takes, or one, and a session that plays names a room with its player
-- in it, or none. The search for an id is given one round more than
-- there are rooms; with all ids taken the source's loop is endless, which is the third fault. Room
-- ids wrap around at the bound of an `int`, and the difference of two times at 64 bits. A time is in
-- microseconds, the unit of the intervals that the source compares with.
--
-- At a queue one thread at most waits in `pop`, as in the program: the worker at the queue of its
-- tasks, nobody at the main loop's. Any number of others push, try to pop and stop.
--
-- The router is modelled over the state of the server and over the JSON library, whose conversions
-- are parameters that give a value or fail an assertion on its type. The functions of the other
-- parts are not registered in it one by one.
--
-- The database is two tables, `Db`, and a statement is what its SQL does to them: the constraints and
-- the widths of the columns, in the strict mode that MySQL has by default. Whether a call of the
-- connector works, the time, the weights of the collation, random bytes, base 64 and the digest are
-- parameters, gathered in `DbLibrary`; a column is read as its value. A `Query` returns, throws or
-- fails an assertion, and what it wrote before stays. `IsDb` says what the tables keep. A page takes
-- the request and the server, `Web`, and returns it with answers and tasks; `turn` is the worker's
-- next task and the callback after it, from a server in which nothing waits (`at_rest`). Texts are
-- the bytes of a `std::string` there.
--
-- Not modelled: log output; the conversion of values to and from JSON; configuration and network
-- (src/core/config.cpp, and of src/core/server.cpp the routes, the timer and the start); the
-- creation of the tables; the vendored libraries (third-party), of which tokens, the regular
-- expressions of nicks and addresses, the length of a string in bytes and the closing of a socket are
-- used: they are parameters but for the last, and a closed socket's listener runs before `close`
-- returns.
pub mod Common
pub mod Card
pub mod Stater
pub mod Room
pub mod Session
pub mod Manager
pub mod Queue
pub mod Lobby
pub mod Router
pub mod Account
pub mod Web
mod Tests
