-- ===== src/Pay.antt =====
-- The payment channels of billing-svc, go/services/billing-svc/internal/pay: the channels and their
-- registry of channel.go, and the mock channel of mock.go, which the other channels follow.
pub mod Window
pub mod Verification
pub mod Replay
pub mod Reconcile
mod Tests
use yunmao.Base.{
  String, append, Bool, true, false, not, ◌||◌, Option, none, some, if◌then◌else◌, ℤ, pos, negsuc,
  leb_ℤ, ltb_ℤ, sub64, wrap64, Fallible, returns, fails, List, [], ◌∷◌, ◌==◌, Dict, lookup, insert,
  atoi,
}
use yunmao.FeatureFlags.{Json}
use yunmao.Cache.Memory.{format_int}

abbrev pub Channel : Type 0
Channel = String

abbrev pub channel_mock : Channel
channel_mock = "mock"

unfoldable pub validate : Channel → Fallible String (Unit {0})
validate c =
    if c == "mock" || c == "wechat" || c == "alipay" || c == "appleiap"
    then returns tt
    else fails (append "pay: unknown channel " c)

pub record PrepayRequest : Type 0 where
  pub order_id : String
  pub amount_fen : ℤ
  pub subject : String
  pub currency : String
  pub user_id : String
  pub return_url : String
  pub notify_url : String
  pub client_type : String
  pub extra : Dict String

pub record PrepayResponse : Type 0 where
  pub channel : Channel
  pub prepay_id : String
  pub pay_url : String
  pub qr_content : String
  pub client_hints : Dict String
  pub raw_response : Dict Json

pub record WebhookEvent : Type 0 where
  pub channel : Channel
  pub order_id : String
  pub external_trade_no : String
  pub amount_fen : ℤ
  pub status : String
  pub occurred_at : ℤ

pub record QueryResult : Type 0 where
  pub order_id : String
  pub external_trade_no : String
  pub status : String
  pub amount_fen : ℤ
  pub channel : Channel

pub record RefundRequest : Type 0 where
  pub order_id : String
  pub external_trade_no : String
  pub amount_fen : ℤ
  pub reason : String

pub record RefundResult : Type 0 where
  pub order_id : String
  pub refund_id : String
  pub status : String
  pub amount_fen : ℤ
  pub channel : Channel

-- What reconciliation uses of a PayChannel, over the state `S` of all channels: its name, and the
-- status of an order, `none` for a nil result.
pub record PayChannel (S : Type 0) : Type 0 where
  pub name : Channel
  pub query_status : String → S → Fallible String (Option QueryResult) × S

abbrev pub Registry : Type 0 → Type 0
Registry S = Dict (PayChannel S)

unfoldable pub register : {S : Type 0} → PayChannel S → Registry S → Registry S
register c r = insert c.name c r

unfoldable pub get : {S : Type 0} → Channel → Registry S → Fallible String (PayChannel S)
get c r = elim (lookup c r) [
  | none ↦ fails (append "pay: channel not registered: " c)
  | some v ↦ returns v
]

pub record MockConfig : Type 0 where
  pub secret : String
  pub replay_window_seconds : ℤ

pub record MockChannel : Type 0 where
  pub cfg : MockConfig
  pub status : Dict String
  pub nonces : Dict ℤ

unfoldable pub new_mock_channel : MockConfig → MockChannel
new_mock_channel c = record {
  cfg = record {
    secret = if c.secret == "" then "mock-secret" else c.secret;
    replay_window_seconds =
        if leb_ℤ c.replay_window_seconds (pos 0) then pos 300 else c.replay_window_seconds;
  };
  status = [];
  nonces = [];
}

unfoldable pub create_prepay : PrepayRequest → Fallible String PrepayResponse
unfolding format_int
create_prepay req =
    if req.order_id == ""
    then fails "mock: order_id required"
    else if leb_ℤ req.amount_fen (pos 0)
    then fails "mock: amount_fen must be > 0"
    else returns (record {
      channel = channel_mock;
      prepay_id = append "mockprepay_" req.order_id;
      pay_url = append "https://mock.pay.local/pay?prepay_id=mockprepay_" req.order_id;
      qr_content = append "weixin://wxpay/mock/" req.order_id;
      client_hints = ("amount_fen", format_int req.amount_fen) ∷ [];
      raw_response = [];
    })

-- `x` of a header, which is empty when it is missing.
abbrev pub header : String → Dict String → String
header name headers = elim (lookup name headers) [ none ↦ "" | some v ↦ v ]

-- The wrap-around leaves the least int64 negative.
unfoldable pub abs : ℤ → ℤ
unfolding sub64
abs x = if ltb_ℤ x (pos 0) then sub64 (pos 0) x else x

pub record WebhookBody : Type 0 where
  pub order_id : String
  pub external_trade_no : String
  pub amount_fen : ℤ
  pub status : String

-- The libraries: `hmac_hex` is the HMAC-SHA256 of a text under a secret as hexadecimal text, and
-- `read_body` reads a body as JSON.
pub record Libraries : Type 0 where
  pub hmac_hex : String → String → String
  pub read_body : String → Option WebhookBody

unfoldable pub mock_sign : Libraries → String → String → String → String → String
mock_sign l secret body ts nonce =
    l.hmac_hex secret (append ts (append "\n" (append nonce (append "\n" body))))

-- The tests before the lock is taken, which give the time in the headers; `now` is the Unix time.
unfoldable pub check_signature :
    Libraries → MockConfig → String → Dict String → ℤ → Fallible String ℤ
unfolding abs sub64 mock_sign atoi
check_signature l cfg raw headers now =
    let ts = header "X-Yunmao-Pay-Ts" headers in
    let nonce = header "X-Yunmao-Pay-Nonce" headers in
    let sig = header "X-Yunmao-Pay-Sig" headers in
    if ts == "" || nonce == "" || sig == ""
    then fails "mock: missing X-Yunmao-Pay-Ts/Nonce/Sig"
    else elim (atoi ts) [
      | none ↦ fails "mock: invalid ts"
      | some t ↦
          if ltb_ℤ cfg.replay_window_seconds (abs (sub64 now t))
          then fails "mock: timestamp outside window"
          else if mock_sign l cfg.secret raw ts nonce == sig
          then returns t
          else fails "mock: signature mismatch"
    ]

-- The body is read after its nonce was used up.
unfoldable pub read_webhook :
    Libraries → String → ℤ → MockChannel → Fallible String WebhookEvent × MockChannel
read_webhook l raw t m = elim (l.read_body raw) [
  | none ↦ (fails "mock: invalid json body", m)
  | some body ↦ (
    returns (record {
      channel = channel_mock;
      order_id = body.order_id;
      external_trade_no = body.external_trade_no;
      amount_fen = body.amount_fen;
      status = body.status;
      occurred_at = t;
    }),
    record m { status = insert body.order_id body.status m.status },
  )
]

unfoldable pub verify_webhook :
    Libraries → String → Dict String → ℤ → MockChannel → Fallible String WebhookEvent × MockChannel
unfolding check_signature read_webhook
verify_webhook l raw headers now m = elim (check_signature l m.cfg raw headers now) [
  | fails e ↦ (fails e, m)
  | returns t ↦
      let nonce = header "X-Yunmao-Pay-Nonce" headers in
      elim (lookup nonce m.nonces) [
        | some _ ↦ (fails "mock: nonce replayed", m)
        | none ↦ read_webhook l raw t (record m { nonces = insert nonce t m.nonces })
      ]
]

unfoldable pub query_status : String → MockChannel → QueryResult
query_status order m = record {
  order_id = order;
  external_trade_no = append "mocktrade_" order;
  status = elim (lookup order m.status) [ none ↦ "pending" | some st ↦ st ];
  amount_fen = pos 0;
  channel = channel_mock;
}

unfoldable pub refund : RefundRequest → RefundResult
refund req = record {
  order_id = req.order_id;
  refund_id = append "mockrefund_" req.order_id;
  status = "ok";
  amount_fen = req.amount_fen;
  channel = channel_mock;
}

-- The mock channel as a channel of the registry.
unfoldable pub mock_channel : PayChannel MockChannel
unfolding query_status
mock_channel = record {
  name = channel_mock;
  query_status = λ order m. (returns (some (query_status order m)), m);
}
