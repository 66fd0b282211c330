-- ===== src/Handlers/Account.antt =====
-- x/account/handler.go. `time` is the time of the block in seconds; an amount of LNO is a string.
use lino.Sdk.{Sdk}
use lino.Prelude.Int.{ℤ, pos}
use lino.Prelude.{String}
use lino.Handlers.Store.{
  AppMethod, on_bank, reject_if, no_account, on_account, coin_of_lino, on_global,
}
use lino.Prelude.Exec.{◌>>◌, ◌>>=◌}
use lino.Account.Profile.{
  claim_reward, update_json_meta, set_follower, remove_follower, set_following, remove_following,
}
use lino.Types.Errors.{
  followee_not_found, receiver_not_found, account_not_found, referrer_not_found, follower_not_found,
  sender_not_found, register_fee_insufficient,
}
use lino.Account.Signing.{recover_account}
use lino.Account.Bank.{minus_saving_coin, get_account_param, add_saving_coin}
use lino.Types.Coin.{is_gt, minus}
use lino.Account.Opening.{transfer_in, create_account}
use lino.Global.Inflation.{add_to_developer_inflation_pool}

-- types.TransferDetailType
abbrev pub transfer_out : ℤ
transfer_out = pos 20

module _ ⦃sdk : Sdk⦄ where
  open sdk use {PubKey}

  unfoldable pub handle_follow_msg : ℤ → (follower followee : String) → AppMethod Unit
  handle_follow_msg time follower followee = do
    reject_if (no_account followee) followee_not_found
    reject_if (no_account follower) follower_not_found
    on_bank (set_follower time followee follower)
    on_bank (set_following time follower followee)

  unfoldable pub handle_unfollow_msg : (follower followee : String) → AppMethod Unit
  handle_unfollow_msg follower followee = do
    reject_if (no_account followee) followee_not_found
    reject_if (no_account follower) follower_not_found
    on_bank (remove_follower followee follower)
    on_bank (remove_following follower followee)

  unfoldable pub handle_transfer_msg : ℤ → (sender receiver amount memo : String) → AppMethod Unit
  handle_transfer_msg time sender receiver amount memo = do
    reject_if (no_account receiver) receiver_not_found
    reject_if (no_account sender) sender_not_found
    coin ← coin_of_lino amount
    on_bank (minus_saving_coin time sender coin receiver memo transfer_out)
    on_bank (add_saving_coin time receiver coin sender memo transfer_in)

  abbrev pub handle_claim_msg : ℤ → String → AppMethod Unit
  handle_claim_msg time username = on_bank (claim_reward time username)

  unfoldable pub handle_recover_msg : String → (reset transaction app : PubKey) → AppMethod Unit
  handle_recover_msg username reset transaction app = do
    reject_if (no_account username) account_not_found
    on_account (recover_account username reset transaction app)

  unfoldable pub handle_register_msg :
      ℤ
      → (referrer register_fee new_user : String) → (reset transaction app : PubKey)
      → AppMethod Unit
  handle_register_msg time referrer register_fee new_user reset transaction app = do
    reject_if (no_account referrer) referrer_not_found
    coin ← coin_of_lino register_fee
    param ← on_bank get_account_param
    reject_if (λ s. is_gt param.register_fee coin) register_fee_insufficient
    on_bank (minus_saving_coin time referrer coin new_user "" transfer_out)
    on_global (add_to_developer_inflation_pool param.register_fee)
    on_bank (
        create_account time referrer new_user reset transaction app (minus coin param.register_fee))

  unfoldable pub handle_update_account_msg : (username json_meta : String) → AppMethod Unit
  handle_update_account_msg username json_meta = do
    reject_if (no_account username) account_not_found
    on_bank (update_json_meta username json_meta)
