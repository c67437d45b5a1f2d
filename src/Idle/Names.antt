-- ===== src/Idle/Names.antt =====
-- tun/adaptive_idle.rs: the tables of domain suffixes.
use mirage_android.Prelude.{Text, List, [], ◌∷◌, map}
use mirage_android.Data.Texts.{bytes}

-- `CDN_SUFFIXES`.
unfoldable pub cdn_suffixes : List Text
cdn_suffixes = map bytes (
    "twimg.com" ∷ "ytimg.com" ∷ "ggpht.com" ∷ "gvt1.com" ∷ "gvt2.com" ∷ "1e100.net"
    ∷ "googleusercontent.com" ∷ "fbcdn.net" ∷ "cdninstagram.com" ∷ "akamaized.net"
    ∷ "cloudfront.net" ∷ "fastly.net" ∷ "tiktokcdn.com" ∷ "byteoversea.com" ∷ "vimeocdn.com"
    ∷ "edgesuite.net" ∷ "llnwd.net" ∷ "cdn.sstatic.net" ∷ "githubusercontent.com" ∷ "alicdn.com"
    ∷ "hdslb.com" ∷ "bilivideo.com" ∷ "sinaimg.cn" ∷ "qpic.cn" ∷ "gtimg.com" ∷ "bdstatic.com"
    ∷ "douyincdn.com" ∷ "snssdk.com" ∷ "kuaishoucdn.com" ∷ "yximgs.com" ∷ "iqiyipic.com"
    ∷ "ykimg.com" ∷ "360buyimg.com" ∷ "meituan.net" ∷ "pstatp.com" ∷ "baidupcs.com" ∷ "aliyuncs.com"
    ∷ [])

-- `IM_SUFFIXES`.
unfoldable pub im_suffixes : List Text
im_suffixes = map bytes (
    "telegram.org" ∷ "t.me" ∷ "telesco.pe" ∷ "tdesktop.com" ∷ "whatsapp.net" ∷ "whatsapp.com"
    ∷ "mtalk.google.com" ∷ "push.apple.com" ∷ "discord.gg" ∷ "discord.com" ∷ "matrix.org"
    ∷ "signal.org" ∷ "weixin.qq.com" ∷ "qq.com" ∷ "wechat.com" ∷ "tencent.com" ∷ "servicewechat.com"
    ∷ "tenpay.com" ∷ "wxs.qq.com" ∷ "wx.qq.com" ∷ "dingtalk.com" ∷ "laiwang.com" ∷ "feishu.cn"
    ∷ "larksuite.com" ∷ "jpush.cn" ∷ "getui.com" ∷ "getui.net" ∷ "umeng.com" ∷ "push.aliyun.com"
    ∷ "push.dingtalk.com" ∷ "xmpush.xiaomi.com" ∷ "push.xiaomi.com" ∷ "push.hicloud.com"
    ∷ "push.heytap.com" ∷ "push.oppomobile.com" ∷ "push.vivo.com.cn" ∷ [])
