-- ===== src/Pay/Tests.antt =====
-- Tests of the payment channels, and their theorems at concrete inputs.
use yunmao.Base.{
  ◌≡◌, refl, String, List, [], ◌∷◌, Dict, lookup, some, pos, negsuc, returns, fails, sub64, Time,
}
use yunmao.Pay.{
  MockChannel, Libraries, WebhookEvent, verify_webhook, mock_channel, register, abs, Registry,
}
use yunmao.Pay.Replay.{served, verify_webhook-served, Call}
use yunmao.Pay.Verification.{Verified, verify_webhook-Verified}
use yunmao.Pay.Reconcile.{LocalOrder, Sink, run_orders}
use yunmao.Pay.Reconcile.Complete.{Adds, run_orders-Adds}

abbrev libraries : Libraries
libraries = record {
  hmac_hex = λ secret text. text;
  read_body = λ raw. some (record {
    order_id = "ord_1";
    external_trade_no = "t_1";
    amount_fen = pos 100;
    status = "paid";
  });
}

abbrev fresh : MockChannel
fresh = record {
  cfg = record { secret = "mock-secret"; replay_window_seconds = pos 300 };
  status = [];
  nonces = [];
}

abbrev headers : Dict String
headers =
    ("X-Yunmao-Pay-Ts", "1000")
    ∷ ("X-Yunmao-Pay-Nonce", "n1")
    ∷ ("X-Yunmao-Pay-Sig", "1000\nn1\n{}")
    ∷ []

abbrev event : WebhookEvent
event = record {
  channel = "mock";
  order_id = "ord_1";
  external_trade_no = "t_1";
  amount_fen = pos 100;
  status = "paid";
  occurred_at = pos 1000;
}

taken : (verify_webhook libraries "{}" headers (pos 1100) fresh).0 ≡ returns event
unfolding verify_webhook lookup
taken = refl

-- A time 2 ^ 63 seconds ago is within the window, since its distance is the least int64.
ancient : abs (sub64 (pos 1000) (negsuc 9223372036854774807)) ≡ negsuc 9223372036854775807
unfolding abs sub64
ancient = refl

verify_webhook-Verified_example :
    Verified libraries "{}" headers
      (pos 1100)
      fresh
      (verify_webhook libraries "{}" headers (pos 1100) fresh).0
      (verify_webhook libraries "{}" headers (pos 1100) fresh).1
verify_webhook-Verified_example = verify_webhook-Verified libraries "{}" headers (pos 1100) fresh

abbrev between : List Call
between = ("x", [], pos 1101) ∷ []

verify_webhook-served_example :
    (e : String) × (verify_webhook libraries "{}" headers
        (pos 1200)
        (served libraries between (verify_webhook libraries "{}" headers (pos 1100) fresh).1)
      ≡ (
        fails e,
        served libraries between (verify_webhook libraries "{}" headers (pos 1100) fresh).1,
      ))
verify_webhook-served_example =
    verify_webhook-served libraries "{}" headers (pos 1100) fresh event between "{}" headers
      (pos 1200) taken refl

abbrev registry : Registry MockChannel
unfolding register mock_channel
registry = register mock_channel []

abbrev orders : List (LocalOrder × Time)
orders =
    (record { order_id = "ord_1"; channel = "mock"; status = "paid"; amount_fen = pos 100 }, 9)
    ∷ (record { order_id = "ord_2"; channel = "wechat"; status = "paid"; amount_fen = pos 5 }, 9)
    ∷ []

abbrev empty : Sink
empty = record { records = []; diffs = [] }

run_orders-Adds_example :
    Adds registry "reco_1" orders
      (empty, fresh)
      (run_orders registry "reco_1" orders (empty, fresh))
run_orders-Adds_example = run_orders-Adds registry "reco_1" orders empty fresh
