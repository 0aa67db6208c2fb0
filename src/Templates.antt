-- ===== src/Templates.antt =====
-- web/src/utils/emailTemplates.ts: the built-in email templates, text for text.
use Prim.Native.String.{String, ◌++◌}
use testkit_service.Prelude.{List, [], ◌∷◌}

pub record EmailTemplate : Type 0 where
  pub id : String
  pub label : String
  pub subject : String
  pub body : String
  pub html_body : String

-- BRAND_COLOR
brand_color : String
brand_color = "#1677ff"

-- FONT_STACK
font_stack : String
font_stack = "'PingFang SC','Microsoft YaHei','Helvetica Neue',Arial,sans-serif"

-- emailDocument
email_document : String → String
unfolding font_stack
email_document inner_rows =
    "<!DOCTYPE html>\n" ++ "<html lang=\"zh-CN\">\n" ++ "  <head>\n"
    ++ "    <meta charset=\"utf-8\" />\n"
    ++ "    <meta name=\"viewport\" content=\"width=device-width, initial-scale=1.0\" />\n"
    ++ "    <title>Testkit</title>\n" ++ "  </head>\n"
    ++ "  <body style=\"margin:0;padding:0;background-color:#f0f2f5;\">\n" ++ "    <table\n"
    ++ "      role=\"presentation\"\n" ++ "      width=\"100%\"\n" ++ "      cellpadding=\"0\"\n"
    ++ "      cellspacing=\"0\"\n" ++ "      border=\"0\"\n"
    ++ "      style=\"background-color:#f0f2f5;padding:24px 12px;\"\n" ++ "    >\n"
    ++ "      <tr>\n" ++ "        <td align=\"center\">\n" ++ "          <table\n"
    ++ "            role=\"presentation\"\n" ++ "            width=\"600\"\n"
    ++ "            cellpadding=\"0\"\n" ++ "            cellspacing=\"0\"\n"
    ++ "            border=\"0\"\n"
    ++ "            style=\"width:600px;max-width:100%;background-color:#ffffff;border-"
    ++ "radius:8px;overflow:hidden;font-family:" ++ font_stack ++ ";\"\n" ++ "          >\n"
    ++ "            " ++ inner_rows ++ "\n" ++ "          </table>\n" ++ "        </td>\n"
    ++ "      </tr>\n" ++ "    </table>\n" ++ "  </body>\n" ++ "</html>"

-- brandHeaderRow
brand_header_row : String
unfolding brand_color
brand_header_row =
    "<tr>\n" ++ "  <td style=\"background-color:" ++ brand_color ++ ";padding:20px 32px;\">\n"
    ++ "    <span style=\"font-size:20px;font-weight:700;color:#ffffff;letter-spacing:1"
    ++ "px;\">Testkit</span>\n" ++ "  </td>\n" ++ "</tr>"

-- footerRow
footer_row : String → String
footer_row extra_note =
    "<tr>\n" ++ "  <td style=\"padding:8px 32px 28px;\">\n"
    ++ "    <p style=\"margin:0;padding-top:16px;border-top:1px solid #f0f0f0;font-size"
    ++ ":12px;line-height:18px;color:#a8adb4;\">\n" ++ "      此邮件由 Testkit 系统自动发送，请勿直接回复。"
    ++ extra_note ++ "\n" ++ "    </p>\n" ++ "  </td>\n" ++ "</tr>"

-- verificationCodeHtml
verification_code_html : String
unfolding email_document brand_header_row footer_row brand_color
verification_code_html = email_document (
    "\n"
    ++ brand_header_row
    ++ "\n"
    ++ "<tr>\n"
    ++ "  <td style=\"padding:36px 32px 12px;\">\n"
    ++ "    <p style=\"margin:0 0 8px;font-size:16px;font-weight:600;color:#1f2329;\">您的"
    ++ "验证码</p>\n"
    ++ "    <p style=\"margin:0 0 24px;font-size:14px;line-height:22px;color:#51565d;\">"
    ++ "\n"
    ++ "      您好！您正在进行身份验证，请使用下方验证码完成操作：\n"
    ++ "    </p>\n"
    ++ "    <table role=\"presentation\" width=\"100%\" cellpadding=\"0\" cellspacing=\"0\" bo"
    ++ "rder=\"0\">\n"
    ++ "      <tr>\n"
    ++ "        <td align=\"center\" style=\"background-color:#f5f8ff;border:1px dashed "
    ++ brand_color
    ++ ";border-radius:6px;padding:18px 12px;\">\n"
    ++ "          <span style=\"font-size:36px;font-weight:700;letter-spacing:10px;colo"
    ++ "r:"
    ++ brand_color
    ++ ";font-family:'Courier New',monospace;\">{code}</span>\n"
    ++ "        </td>\n"
    ++ "      </tr>\n"
    ++ "    </table>\n"
    ++ "    <p style=\"margin:24px 0 6px;font-size:13px;line-height:20px;color:#51565d;"
    ++ "\">验证码 5 分钟内有效，请尽快使用。</p>\n"
    ++ "    <p style=\"margin:0;font-size:13px;line-height:20px;color:#51565d;\">\n"
    ++ "      为了您的账号安全，请勿将验证码透露给任何人。\n"
    ++ "    </p>\n"
    ++ "  </td>\n"
    ++ "</tr>\n"
    ++ footer_row "若非本人操作，请忽略此邮件。"
    ++ "\n")

-- notificationHtml
notification_html : String
unfolding email_document brand_header_row footer_row
notification_html = email_document (
    "\n"
    ++ brand_header_row
    ++ "\n"
    ++ "<tr>\n"
    ++ "  <td style=\"padding:36px 32px 12px;\">\n"
    ++ "    <p style=\"margin:0 0 16px;font-size:16px;font-weight:600;color:#1f2329;\">系"
    ++ "统通知</p>\n"
    ++ "    <p style=\"margin:0 0 12px;font-size:14px;line-height:24px;color:#51565d;\">"
    ++ "\n"
    ++ "      您好！这里是一封系统通知邮件的示例正文，发送前请替换为实际内容。\n"
    ++ "    </p>\n"
    ++ "    <p style=\"margin:0;font-size:14px;line-height:24px;color:#51565d;\">\n"
    ++ "      第二段正文：支持多段文字，编辑 HTML 可调整样式与结构。\n"
    ++ "    </p>\n"
    ++ "  </td>\n"
    ++ "</tr>\n"
    ++ footer_row ""
    ++ "\n")

-- EMAIL_TEMPLATES, by entry
unfoldable pub verification_code_template : EmailTemplate
unfolding verification_code_html
verification_code_template = record {
  id = "verification-code";
  label = "验证码邮件（大字号验证码卡片）";
  subject = "Testkit 验证码";
  body = "您的验证码：{code}，5 分钟内有效。为了您的账号安全，请勿将验证码透露给任何人。";
  html_body = verification_code_html;
}

unfoldable pub notification_template : EmailTemplate
unfolding notification_html
notification_template = record {
  id = "notification";
  label = "通知邮件（标题 + 正文段落）";
  subject = "Testkit 系统通知";
  body = "您好！这里是一封系统通知邮件的示例正文，发送前请替换为实际内容。";
  html_body = notification_html;
}

unfoldable pub blank_template : EmailTemplate
blank_template = record { id = "blank"; label = "空白（自定义）"; subject = ""; body = ""; html_body = "" }

-- EMAIL_TEMPLATES
unfoldable pub email_templates : List EmailTemplate
unfolding verification_code_template notification_template blank_template
email_templates = verification_code_template ∷ notification_template ∷ blank_template ∷ []
