-- ===== src/Tests/Auth.antt =====
-- x/auth: a transaction passes the checks once.
use Prim.Native.String.{len}
use lino.Tests.Ints.{test_sdk, coins}
use lino.Tests.Handlers.{app, no_events}
use lino.Tests.Bank.{one_bank}
use lino.Prelude.Table.{insert, empty, string_key}
use lino.Prelude.{
  ◌≡◌, none, some, [], ◌∷◌, refl, true, false, String, Bool, str_eq, arith, List, map, ◌≤◌,
}
use lino.Prelude.Int.{pos, ℤ}
use lino.Auth.Ante.{StdTx, TxMsg, StdSignature, ante_handler, to_sign}
use lino.Auth.Once.{ante_handler_once}
use lino.Account.Bank.{AccountMeta}
use lino.Handlers.Store.{AppStore}
use lino.Account.Store.{transaction_permission}
use lino.Account.Signing.{check_signing_pub_key_owner}
use lino.Prelude.Exec.{ok, err}
use lino.Auth.Sequences.{app_view}
use lino.Types.Errors.{Error}
use lino.Messages.Lino.{as_msg, LinoMsg, tx_msg}
use lino.Prelude.Lists.{length, All}
use lino.Messages.Check.{matches_username_re, illegal_username, matches_illegal_username_re}
use lino.Messages.Signers.{ante_handler_signatures}

abbrev user_meta : AccountMeta
user_meta = record {
  sequence = pos 4;
  last_activity_at = pos 3000;
  transaction_capacity = coins 30;
  json_meta = "";
  last_report_or_upvote_at = pos 0;
  last_post_at = pos 0;
}

abbrev ready : AppStore
ready = record app {
  bank = record one_bank {
    queues =
        insert "user"
          (record {
            last_updated_at = pos 3000;
            total_coin_day = (pos 0, pos 1);
            total_coin = coins 0;
            pending_coin_days = [];
          })
          empty;
    metas = insert "user" user_meta empty;
    bandwidth_param = some (record {
      seconds_to_recover_bandwidth = pos 100;
      capacity_usage_per_transaction = coins 2;
      virtual_coin = coins 1;
    });
  };
  global = record no_events {
    tps = some (record { current_tps = (pos 1, pos 1); max_tps = (pos 2, pos 1) });
  };
}

abbrev transfer : TxMsg
transfer = record {
  signers = "user" ∷ [];
  permission = transaction_permission;
  consume_amount = coins 0;
}

-- Signatures that name their key are valid.
abbrev names_key : String → ℤ → String → Bool
names_key key seq sig = str_eq key sig

abbrev signed : StdSignature String
signed = record { pub_key = "user_tx"; signature = "user_tx"; sequence = pos 4 }

abbrev tx : StdTx String
tx = record { signatures = signed ∷ []; memo = "thanks"; msgs = transfer ∷ [] }

checks_pass : (ante_handler (pos 3000) names_key tx ready).0 ≡ ok tt
unfolding ante_handler lino.Auth.Ante.check_signatures lino.Auth.Ante.check_signature
    check_signing_pub_key_owner insert lino.Account.Signing.get_transaction_key
    lino.Account.Profile.get_sequence lino.Account.Profile.increase_sequence_by_one
    lino.Account.Opening.check_user_tps_capacity lino.Account.Opening.get_coin_day
    lino.Types.Coin.is_gt lino.Types.Coin.is_gte lino.Types.Coin.plus lino.Prelude.Int.◌+ℤ◌
    lino.Account.CoinDay.update_tx_from_pending_coin_day_queue lino.Account.CoinDay.take_ended
    lino.Prelude.Int64.wrap64 lino.Prelude.Int.◌*ℤ◌ lino.Prelude.Int.div_pos
    lino.Types.Coin.new_coin_from_int64 lino.Types.Coin.rat_to_coin lino.Prelude.Int.◌-ℤ◌
    lino.Types.Coin.is_equal lino.Types.Coin.minus
checks_pass = refl

abbrev after : AppStore
after = (ante_handler (pos 3000) names_key tx ready).1

five_next : app_view after "user" ≡ some (pos 5)
unfolding ante_handler lino.Auth.Ante.check_signatures lino.Auth.Ante.check_signature
    check_signing_pub_key_owner insert lino.Account.Signing.get_transaction_key
    lino.Account.Profile.get_sequence lino.Account.Profile.increase_sequence_by_one
    lino.Account.Opening.check_user_tps_capacity lino.Account.Opening.get_coin_day
    lino.Types.Coin.is_gt lino.Types.Coin.is_gte lino.Types.Coin.plus lino.Prelude.Int.◌+ℤ◌
    lino.Account.CoinDay.update_tx_from_pending_coin_day_queue lino.Account.CoinDay.take_ended
    lino.Prelude.Int64.wrap64 lino.Prelude.Int.◌*ℤ◌ lino.Prelude.Int.div_pos
    lino.Types.Coin.new_coin_from_int64 lino.Types.Coin.rat_to_coin lino.Prelude.Int.◌-ℤ◌
    lino.Types.Coin.is_equal lino.Types.Coin.minus
five_next = refl

ante_handler_once_example : (e : Error) × ((ante_handler (pos 4000) names_key tx after).0 ≡ err e)
ante_handler_once_example =
    ante_handler_once (pos 3000) (pos 4000) names_key names_key tx tx "user" transfer transfer [] []
      signed signed [] [] 4 5 5 ready after refl refl refl refl refl refl (ground arith) checks_pass
      five_next five_next (ground arith)

abbrev messages : List LinoMsg
messages =
    LinoMsg.transfer (record { sender = "user"; receiver = "dev"; amount = "0.5"; memo = "" }) ∷ []

sends_them : tx.msgs ≡ map tx_msg messages
unfolding as_msg
sends_them = refl

transfer_passes : All (λ msg. (as_msg msg).validate_basic ≡ ok tt) messages
unfolding as_msg lino.Messages.Account.validate_transfer_msg illegal_username
    lino.Types.Coin.lino_to_coin lino.Prelude.Int.◌*ℤ◌
transfer_passes = (refl, tt)

ante_handler_signatures_example :
    (length tx.signatures ≡ length messages)
    × All (λ signer. (3 ≤ len signer.0) × (len signer.0 ≤ 20)) (to_sign tx.msgs)
ante_handler_signatures_example =
    ante_handler_signatures (pos 3000) names_key tx messages ready sends_them transfer_passes
      checks_pass

-- Names that may be registered, and names that may not.
registered_names :
    (matches_username_re "a-b.c9" ≡ true)
    × (matches_username_re "9abc" ≡ false)
    × (matches_username_re "ab" ≡ false)
    × (matches_username_re "abc-" ≡ false)
    × (matches_illegal_username_re "a--b" ≡ true)
    × (matches_illegal_username_re "a-b" ≡ false)
unfolding matches_username_re matches_illegal_username_re lino.Messages.Check.matches_rest
registered_names = (refl, refl, refl, refl, refl, refl)
