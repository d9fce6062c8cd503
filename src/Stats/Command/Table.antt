-- ===== src/Stats/Command/Table.antt =====
-- The table of commands of stats-command.c, in its order.
use mpdcron.Prelude.{ℕ, Bytes, codes, List, [], ◌∷◌}
use mpdcron.Prelude.Int.{pos}
use mpdcron.Stats.Command.{
  Permission, permission_none, permission_select, permission_update, Command, Found, search_between,
}

-- A command that takes `args` arguments, no more and no fewer.
abbrev entry : Bytes → Permission → ℕ → Bytes → Command
entry cmd permission args handler = record {
  cmd = cmd;
  permission = permission;
  min = pos args;
  max = pos args;
  handler = handler;
}

unfoldable pub commands : List Command
commands =
    entry (codes "addtag") permission_update 2 (codes "handle_addtag")
    ∷ entry (codes "addtag_album") permission_update 2 (codes "handle_addtag_album")
    ∷ entry (codes "addtag_artist") permission_update 2 (codes "handle_addtag_artist")
    ∷ entry (codes "addtag_genre") permission_update 2 (codes "handle_addtag_genre")
    ∷ entry (codes "count") permission_update 2 (codes "handle_count")
    ∷ entry (codes "count_album") permission_update 2 (codes "handle_count_album")
    ∷ entry (codes "count_artist") permission_update 2 (codes "handle_count_artist")
    ∷ entry (codes "count_genre") permission_update 2 (codes "handle_count_genre")
    ∷ entry (codes "hate") permission_update 1 (codes "handle_love")
    ∷ entry (codes "hate_album") permission_update 1 (codes "handle_love_album")
    ∷ entry (codes "hate_artist") permission_update 1 (codes "handle_love_artist")
    ∷ entry (codes "hate_genre") permission_update 1 (codes "handle_love_genre")
    ∷ entry (codes "karma") permission_update 2 (codes "handle_karma")
    ∷ entry (codes "kill") permission_update 1 (codes "handle_kill")
    ∷ entry (codes "kill_album") permission_update 1 (codes "handle_kill_album")
    ∷ entry (codes "kill_artist") permission_update 1 (codes "handle_kill_artist")
    ∷ entry (codes "kill_genre") permission_update 1 (codes "handle_kill_genre")
    ∷ entry (codes "list") permission_select 1 (codes "handle_list")
    ∷ entry (codes "list_album") permission_select 1 (codes "handle_list_album")
    ∷ entry (codes "list_artist") permission_select 1 (codes "handle_list_artist")
    ∷ entry (codes "list_genre") permission_select 1 (codes "handle_list_genre")
    ∷ entry (codes "listinfo") permission_select 1 (codes "handle_listinfo")
    ∷ entry (codes "listinfo_album") permission_select 1 (codes "handle_listinfo_album")
    ∷ entry (codes "listinfo_artist") permission_select 1 (codes "handle_listinfo_artist")
    ∷ entry (codes "listinfo_genre") permission_select 1 (codes "handle_listinfo_genre")
    ∷ entry (codes "listtags") permission_select 1 (codes "handle_listtags")
    ∷ entry (codes "listtags_album") permission_select 1 (codes "handle_listtags_album")
    ∷ entry (codes "listtags_artist") permission_select 1 (codes "handle_listtags_artist")
    ∷ entry (codes "listtags_genre") permission_select 1 (codes "handle_listtags_genre")
    ∷ entry (codes "love") permission_update 1 (codes "handle_love")
    ∷ entry (codes "love_album") permission_update 1 (codes "handle_love_album")
    ∷ entry (codes "love_artist") permission_update 1 (codes "handle_love_artist")
    ∷ entry (codes "love_genre") permission_update 1 (codes "handle_love_genre")
    ∷ entry (codes "password") permission_none 1 (codes "handle_password")
    ∷ entry (codes "rate") permission_update 2 (codes "handle_rate")
    ∷ entry (codes "rate_album") permission_update 2 (codes "handle_rate_album")
    ∷ entry (codes "rate_artist") permission_update 2 (codes "handle_rate_artist")
    ∷ entry (codes "rate_genre") permission_update 2 (codes "handle_rate_genre")
    ∷ entry (codes "rate_absolute") permission_update 2 (codes "handle_rate_absolute")
    ∷ entry (codes "rate_absolute_album") permission_update 2 (codes "handle_rate_absolute_album")
    ∷ entry (codes "rate_absolute_artist") permission_update 2 (codes "handle_rate_absolute_artist")
    ∷ entry (codes "rate_absolute_genre") permission_update 2 (codes "handle_rate_absolute_genre")
    ∷ entry (codes "rmtag") permission_update 2 (codes "handle_rmtag")
    ∷ entry (codes "rmtag_album") permission_update 2 (codes "handle_rmtag_album")
    ∷ entry (codes "rmtag_artist") permission_update 2 (codes "handle_rmtag_artist")
    ∷ entry (codes "rmtag_genre") permission_update 2 (codes "handle_rmtag_genre")
    ∷ entry (codes "unkill") permission_update 1 (codes "handle_kill")
    ∷ entry (codes "unkill_album") permission_update 1 (codes "handle_kill_album")
    ∷ entry (codes "unkill_artist") permission_update 1 (codes "handle_kill_artist")
    ∷ entry (codes "unkill_genre") permission_update 1 (codes "handle_kill_genre")
    ∷ []

-- num_commands
abbrev pub num_commands : ℕ
num_commands = 50

-- command_lookup: the search takes fewer rounds than there are commands.
unfoldable pub command_lookup : Bytes → Found
unfolding commands search_between
command_lookup name = search_between num_commands commands name 0 num_commands
