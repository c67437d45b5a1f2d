-- ===== src/Net/Names.antt =====
-- direct.rs, direct_cn_domains.rs: the built-in tables of domain names.
use mirage_android.Prelude.{List, [], ◌∷◌, map, Text}
use mirage_android.Data.Texts.{bytes}

-- `LAN_ROUTER_EXACT_DOMAINS`.
unfoldable pub lan_router_exact_domains : List Text
lan_router_exact_domains = map bytes (
    "router.asus.com" ∷ "asusrouter.com" ∷ "tplogin.cn" ∷ "tplinkwifi.net" ∷ "tplinklogin.net"
    ∷ "miwifi.com" ∷ "tendawifi.com" ∷ "pcloudlink.com" ∷ "phicomm.me" ∷ "zte.home" ∷ "my.router"
    ∷ "netcore.cc" ∷ "melogin.cn" ∷ "falogin.cn" ∷ "hiwifi.com" ∷ "leike.cc" ∷ "routerlogin.net"
    ∷ "routerlogin.com" ∷ "speedport.ip" ∷ "fritz.box" ∷ "repeater.setup" ∷ "router.ctc"
    ∷ "gateway.zte" ∷ [])

-- `LAN_DOMAIN_SUFFIXES`.
unfoldable pub lan_domain_suffixes : List Text
lan_domain_suffixes =
    map bytes
      ("local" ∷ "lan" ∷ "home.arpa" ∷ "localhost" ∷ "internal" ∷ "home" ∷ "corp" ∷ "box" ∷ [])

-- `NON_CN_ROOTS`.
unfoldable pub non_cn_roots : List Text
non_cn_roots = map bytes (
    "google.com" ∷ "googleapis.com" ∷ "googlevideo.com" ∷ "gstatic.com" ∷ "ggpht.com" ∷ "gvt1.com"
    ∷ "gvt2.com" ∷ "1e100.net" ∷ "googleusercontent.com" ∷ "googleadservices.com"
    ∷ "googlesyndication.com" ∷ "google-analytics.com" ∷ "doubleclick.net" ∷ "youtube.com"
    ∷ "youtu.be" ∷ "ytimg.com" ∷ "yt.be" ∷ "android.com" ∷ "g.co" ∷ "goo.gl" ∷ "telegram.org"
    ∷ "t.me" ∷ "telesco.pe" ∷ "tdesktop.com" ∷ "telegra.ph" ∷ "telegram.me" ∷ "twitter.com"
    ∷ "x.com" ∷ "twimg.com" ∷ "t.co" ∷ "facebook.com" ∷ "fbcdn.net" ∷ "instagram.com"
    ∷ "cdninstagram.com" ∷ "whatsapp.com" ∷ "threads.net" ∷ "netflix.com" ∷ "nflxvideo.net"
    ∷ "nflximg.net" ∷ "nflxext.com" ∷ "spotify.com" ∷ "scdn.co" ∷ "spotifycdn.com"
    ∷ "disneyplus.com" ∷ "disney.com" ∷ "hbo.com" ∷ "max.com" ∷ "paramountplus.com" ∷ "ted.com"
    ∷ "tedcdn.com" ∷ "github.com" ∷ "githubusercontent.com" ∷ "github.io" ∷ "git.io" ∷ "gitlab.com"
    ∷ "bitbucket.org" ∷ "docker.com" ∷ "docker.io" ∷ "npmjs.org" ∷ "npmjs.com" ∷ "pypi.org"
    ∷ "crates.io" ∷ "openai.com" ∷ "chatgpt.com" ∷ "oaistatic.com" ∷ "oaiusercontent.com"
    ∷ "anthropic.com" ∷ "claude.ai" ∷ "x.ai" ∷ "grok.com" ∷ "midjourney.com" ∷ "huggingface.co"
    ∷ "perplexity.ai" ∷ "cursor.com" ∷ "cursor.sh" ∷ "groq.com" ∷ "mistral.ai" ∷ "cohere.com"
    ∷ "tiktok.com" ∷ "tiktokv.com" ∷ "byteoversea.com" ∷ "ibytedtos.com" ∷ "musical.ly"
    ∷ "wikipedia.org" ∷ "wikimedia.org" ∷ "reddit.com" ∷ "redd.it" ∷ "medium.com" ∷ "pinterest.com"
    ∷ "quora.com" ∷ "discord.com" ∷ "discordapp.com" ∷ "discord.gg" ∷ "line.me" ∷ "kakao.com"
    ∷ "cloudflare.com" ∷ "cloudflare-dns.com" ∷ "apple.com" ∷ "icloud.com" ∷ "aaplimg.com"
    ∷ "mzstatic.com" ∷ "microsoft.com" ∷ "live.com" ∷ "office.com" ∷ "azure.com" ∷ "bing.com"
    ∷ "windows.com" ∷ "msn.com" ∷ "amazon.com" ∷ "amazonaws.com" ∷ "steamcommunity.com"
    ∷ "steampowered.com" ∷ "epicgames.com" ∷ "playstation.com" ∷ "nintendo.com" ∷ "nintendo.net"
    ∷ "notion.so" ∷ "figma.com" ∷ "slack.com" ∷ "paypal.com" ∷ "stripe.com" ∷ "binance.com"
    ∷ "coinbase.com" ∷ "okx.com" ∷ [])

-- `CN_DOMAINS`.
unfoldable pub cn_domains : List Text
cn_domains = map bytes (
    "12306.cn" ∷ "12306.com" ∷ "126.com" ∷ "126.net" ∷ "163.com" ∷ "163yun.com" ∷ "360.cn"
    ∷ "360.com" ∷ "360buy.com" ∷ "360buyimg.com" ∷ "95516.com" ∷ "alibaba.com" ∷ "alicdn.com"
    ∷ "alipay.com" ∷ "alipayobjects.com" ∷ "aliyun.com" ∷ "aliyuncs.com" ∷ "amap.com"
    ∷ "autonavi.com" ∷ "baidu.com" ∷ "baidubce.com" ∷ "baiducontent.com" ∷ "bcebos.com"
    ∷ "bdstatic.com" ∷ "bilibili.com" ∷ "bilibili.tv" ∷ "biliapi.com" ∷ "biliapi.net"
    ∷ "bilivideo.com" ∷ "bytedance.com" ∷ "byteimg.com" ∷ "cainiao.com" ∷ "cctv.com"
    ∷ "china.com.cn" ∷ "chinapay.com" ∷ "cn" ∷ "com.cn" ∷ "csdn.net" ∷ "csdnimg.cn" ∷ "ctrip.com"
    ∷ "dianping.com" ∷ "didi.cn" ∷ "didichuxing.com" ∷ "didiglobal.com" ∷ "douyin.com"
    ∷ "douyincdn.com" ∷ "douyu.com" ∷ "edu.cn" ∷ "eev2.com" ∷ "feishu.cn" ∷ "gifshow.com"
    ∷ "gitee.com" ∷ "gov.cn" ∷ "gtimg.com" ∷ "gtimg.cn" ∷ "hdslb.com" ∷ "heytap.com" ∷ "huawei.com"
    ∷ "huaweicloud.com" ∷ "idqqimg.com" ∷ "ifeng.com" ∷ "iqiyi.com" ∷ "jd.com" ∷ "jd.hk"
    ∷ "kuaishou.com" ∷ "kuaishouzt.com" ∷ "meituan.com" ∷ "meituan.net" ∷ "mil.cn" ∷ "miui.com"
    ∷ "myqcloud.com" ∷ "net.cn" ∷ "netease.com" ∷ "oppo.com" ∷ "org.cn" ∷ "oschina.net"
    ∷ "people.com.cn" ∷ "pinduoduo.com" ∷ "pstatp.com" ∷ "qcloud.com" ∷ "qcloudimg.com" ∷ "qlogo.cn"
    ∷ "qpic.cn" ∷ "qq.com" ∷ "qq.com.cn" ∷ "qqmusic.qq.com" ∷ "qunar.com" ∷ "qzone.com"
    ∷ "sankuai.com" ∷ "sina.com" ∷ "sina.com.cn" ∷ "sinaimg.cn" ∷ "sinajs.cn" ∷ "snssdk.com"
    ∷ "sohu.com" ∷ "szshort.weixin.qq.com" ∷ "taobao.com" ∷ "taobaocdn.com" ∷ "tbcdn.cn"
    ∷ "tencent.com" ∷ "tencentmusic.com" ∷ "tmall.com" ∷ "toutiao.com" ∷ "unionpay.com"
    ∷ "upaiyun.com" ∷ "vivo.com" ∷ "wechat.com" ∷ "weibo.com" ∷ "weibo.cn" ∷ "weixin.com"
    ∷ "weixin.qq.com" ∷ "wps.cn" ∷ "xiaohongshu.com" ∷ "xiaomi.com" ∷ "xhscdn.com" ∷ "yangkeduo.com"
    ∷ "ykimg.com" ∷ "youku.com" ∷ "yximgs.com" ∷ "zhihu.com" ∷ "zhimg.com" ∷ [])
