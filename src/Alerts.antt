-- ===== src/Alerts.antt =====
-- TriggerAlert (internal/alerts/dispatcher.go) and SendSlackAlert (internal/alerts/slack.go).
use exotel_monitoring_platfo.Prelude.{ℕ, Option, none, some, Text, if◌then◌else◌}
use exotel_monitoring_platfo.Models.{
  Alert, Channel, slack, email, webhook, open_alert, Severity, critical, warning, info, sent,
  undelivered,
}
use exotel_monitoring_platfo.Exotel.Http.{broken, answered}
use exotel_monitoring_platfo.Effects.{
  Env, World, create_alert, create_dispatch_log, attempt_write, write_anyway,
}

-- severityColor, as the attachment's word
pub data Colour : Type 0 where
  danger_red warning_yellow good_green : Colour

unfoldable pub severity_color : Severity → Colour
severity_color critical = danger_red
severity_color warning = warning_yellow
severity_color info = good_green

module _ {R : Type 0} (env : Env R) where
  -- the HTTP status and the error; (0, nil) where Slack is disabled or has no webhook
  unfoldable pub send_slack_alert : ℕ → ℕ × Option Text
  send_slack_alert n =
      if env.slack_enabled
      then elim (env.slack_reply n) [
        | broken ms text ↦ (0, some text)
        | answered ms status raw ↦ (status, none)
      ]
      else (0, none)

  unfoldable pub dispatch : Channel → World R → World R
  unfolding send_slack_alert write_anyway
  dispatch slack w =
      let (http_status, dispatch_err) = send_slack_alert w.tried in
      write_anyway env
        (create_dispatch_log (record {
          channel = slack;
          status = elim dispatch_err [ none ↦ sent | some e ↦ undelivered ];
          response_code = http_status;
          error_message = dispatch_err;
        }))
        w
  dispatch email w = w
  dispatch webhook w = w

  -- an alert that cannot be stored is not dispatched
  unfoldable pub trigger_alert : Alert → World R → World R
  unfolding dispatch attempt_write
  trigger_alert a w =
      let (stored, w') =
        attempt_write env
          (create_alert (record a { triggered_at = env.completed_at; alert_status = open_alert }))
          w in
      if stored then dispatch a.channel w' else w'
